-- ===== src/Agent/Examples/Codec.antt =====
-- A simple encoding of heartbeats in place of encoding/json: all characters are shifted above those
-- that separate lines and fields.
use screwlogger.Base.{
  ℕ, ◌+◌, ◌-◌, ◌≡◌, refl, Bool, true, false, Option, none, some, [], ◌∷◌, map, arith, ◌==◌,
  if◌then◌else◌, length, sum, Text,
}
use screwlogger.Server.Store.{Sent}
use screwlogger.Server.Ingest.{IngestBatch}
use screwlogger.Agent.Buffer.{Json}
use screwlogger.Agent.Buffer.Lines.{OneLine, IsJson}

abbrev shifted : ℕ → ℕ
shifted c = c + 14

-- A field, the separator 0, and what follows.
abbrev quoted : Text → Text → Text
quoted [] s = 0 ∷ s
quoted (c ∷ f) s = shifted c ∷ quoted f s

abbrev unquoted : Text → Text × Text
unquoted [] = ([], [])
unquoted (c ∷ s) = let r = unquoted s in if c == 0 then ([], s) else ((c - 14) ∷ r.0, r.1)

unquoted-quoted : (f s : Text) → unquoted (quoted f s) ≡ (f, s)
unquoted-quoted [] s = refl
unquoted-quoted (c ∷ f) s =
    let other : (shifted c == 0) ≡ false = ground arith in
    let back : shifted c - 14 ≡ c = omega arith in rw (other, unquoted-quoted f s, back)

abbrev flag : Bool → ℕ
flag false = 0
flag true = 1

abbrev ending : Text → Text → Text → Text → Option Sent
ending id app category (t ∷ f ∷ []) =
    some (record { id = id; ts = t - 14; app = app; category = category; active = f == 1 })
ending id app category _ = none

abbrev pub marshal : Sent → Text
marshal h = quoted h.id (quoted h.app (quoted h.category (shifted h.ts ∷ flag h.active ∷ [])))

abbrev unmarshal : Text → Option Sent
unmarshal s =
    let a = unquoted s in let b = unquoted a.1 in let c = unquoted b.1 in ending a.0 b.0 c.0 c.1

abbrev batch_size : IngestBatch → ℕ
batch_size batch = 60 + sum (map (λ h. length (marshal h) + 1) batch.heartbeats)

abbrev pub codec : Json
codec = record { marshal = marshal; unmarshal = unmarshal; batch_size = batch_size }

quoted-OneLine : (f s : Text) → OneLine s → OneLine (quoted f s)
quoted-OneLine [] s h = ((omega arith, omega arith), h)
quoted-OneLine (c ∷ f) s h = ((omega arith, omega arith), quoted-OneLine f s h)

ending-OneLine : (t : ℕ) (b : Bool) → OneLine (shifted t ∷ flag b ∷ [])
ending-OneLine t true = ((omega arith, omega arith), ((omega arith, omega arith), tt))
ending-OneLine t false = ((omega arith, omega arith), ((omega arith, omega arith), tt))

ending_lem :
    (id app category : Text) (t : ℕ) (b : Bool)
    → ending id app category (shifted t ∷ flag b ∷ [])
      ≡ some (record { id = id; ts = t; app = app; category = category; active = b })
ending_lem id app category t true = let back : shifted t - 14 ≡ t = omega arith in rw back
ending_lem id app category t false = let back : shifted t - 14 ≡ t = omega arith in rw back

pub codec-IsJson : IsJson codec
codec-IsJson = record {
  one_line = λ h.
      quoted-OneLine h.id _
        (quoted-OneLine h.app _ (quoted-OneLine h.category _ (ending-OneLine h.ts h.active)));
  roundtrip = λ h. rw (
    unquoted-quoted h.id (quoted h.app (quoted h.category (shifted h.ts ∷ flag h.active ∷ []))),
    unquoted-quoted h.app (quoted h.category (shifted h.ts ∷ flag h.active ∷ [])),
    unquoted-quoted h.category (shifted h.ts ∷ flag h.active ∷ []),
    ending_lem h.id h.app h.category h.ts h.active,
  );
}
