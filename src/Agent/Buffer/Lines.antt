-- ===== src/Agent/Buffer/Lines.antt =====
-- Reading back the lines that internal/agent/buffer.go writes.
use screwlogger.Base.{
  ℕ, zero, suc, ◌<◌, ◌≡◌, refl, sym, ap, ◌∙◌, ◌≢◌, some, List, [], ◌∷◌, ◌++◌, map, arith, length,
  length-append, take, All, Text,
}
use mathlib.Core.List.{append_assoc}
use screwlogger.Server.Store.{Sent}
use screwlogger.Agent.Buffer.{
  Json, newline, seek, raw_lines, drop_cr, max_token, advance, line, encode, read_lines,
}

-- A line of JSON: neither a newline nor a carriage return is in it.
abbrev pub OneLine : Text → Type 0
OneLine s = All (λ c. (c ≢ newline) × (c ≢ 13)) s

-- What the buffer relies on of encoding/json: an encoded heartbeat is one line, since control
-- characters are escaped, and decodes to itself.
pub record IsJson (j : Json) : Type 0 where
  pub one_line : (h : Sent) → OneLine (j.marshal h)
  pub roundtrip : (h : Sent) → j.unmarshal (j.marshal h) ≡ some h

pub raw_lines-line : (l s : Text) → OneLine l → raw_lines (l ++ newline ∷ s) ≡ l ∷ raw_lines s
unfolding raw_lines
raw_lines-line [] s h = refl
raw_lines-line (c ∷ l) s ((p, q), h) = ground (arith, raw_lines-line l s h)

pub drop_cr_lem : (l : Text) → OneLine l → drop_cr l ≡ l
unfolding drop_cr
drop_cr_lem [] h = refl
drop_cr_lem (c ∷ []) ((p, q), h) = ground arith
drop_cr_lem (c ∷ d ∷ l) (p, h) = ap (c ∷◌) (drop_cr_lem (d ∷ l) h)

pub seek_append : (s t : Text) → seek (length s) (s ++ t) ≡ t
unfolding seek
seek_append [] t = refl
seek_append (c ∷ s) t = seek_append s t

module _ (j : Json) where
  -- A heartbeat whose line a scan can hold.
  abbrev pub Fits : Sent → Type 0
  Fits h = length (j.marshal h) < max_token

  pub encode-append : (xs ys : List Sent) → encode j (xs ++ ys) ≡ encode j xs ++ encode j ys
  unfolding encode
  encode-append [] ys = refl
  encode-append (h ∷ xs) ys =
      ap (line j h ++◌) (encode-append xs ys)
      ∙ sym (append_assoc (line j h) (encode j xs) (encode j ys))

  module _ (law : IsJson j) where
    open law use {one_line, roundtrip}

    pub raw_lines-encode : (hs : List Sent) → raw_lines (encode j hs) ≡ map j.marshal hs
    unfolding encode
    raw_lines-encode [] = unfold raw_lines in refl
    raw_lines-encode (h ∷ hs) =
        ap raw_lines (append_assoc (j.marshal h) (newline ∷ []) (encode j hs))
        ∙ raw_lines-line (j.marshal h) (encode j hs) (one_line h)
        ∙ ap (j.marshal h ∷◌) (raw_lines-encode hs)

    pub read_lines-encoded :
        (n : ℕ) (hs : List Sent)
        → All Fits hs
        → read_lines j n (map j.marshal hs) ≡ some (take n hs)
    unfolding read_lines
    read_lines-encoded zero [] f = refl
    read_lines-encoded (suc n) [] f = refl
    read_lines-encoded zero (h ∷ hs) (f, g) = ground arith
    read_lines-encoded (suc n) (h ∷ hs) (f, g) =
        ground
          (arith, drop_cr_lem (j.marshal h) (one_line h), roundtrip h, read_lines-encoded n hs g)

    pub advance-encoded :
        (n : ℕ) (hs : List Sent)
        → All Fits hs
        → advance n (map j.marshal hs) ≡ some (length (encode j (take n hs)))
    unfolding advance encode
    advance-encoded zero hs f = refl
    advance-encoded (suc n) [] f = refl
    advance-encoded (suc n) (h ∷ hs) (f, g) = ground (
      arith,
      drop_cr_lem (j.marshal h) (one_line h),
      advance-encoded n hs g,
      length-append (line j h) (encode j (take n hs)),
      length-append (j.marshal h) (newline ∷ []),
    )
