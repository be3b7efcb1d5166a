-- ===== src/Web/Uri/RoundTrip.antt =====
-- What `encodeURIComponent` makes of a text is read as that text.
use screwlogger.Base.{
  ℕ, ◌+◌, ◌-◌, ◌*◌, ◌<◌, ◌≡◌, refl, ap, ◌∙◌, inl, inr, true, false, Option, none, some, List, [],
  ◌∷◌, ◌++◌, map, arith, ltb, ◌==◌, Bool-cases, All, Text, concat,
}
use mathlib.Core.Path.{subst}
use mathlib.Core.List.{append_assoc}
use screwlogger.Web.Uri.{
  utf8, escape_byte, escape_point, unreserved, encode_from, encode_uri_component, high_surrogate,
  low_surrogate, prepend,
}
use screwlogger.Web.Uri.Reading.{
  outside, unescape_from, between, units, decode_utf8, read_component, decode_utf8-utf8,
}

unescape_from-escape_byte :
    (b : ℕ) (s : Text)
    → b < 256
    → unescape_from outside (escape_byte b ++ s) ≡ b ∷ unescape_from outside s
unfolding unescape_from escape_byte
unescape_from-escape_byte b s h = ground arith

abbrev IsByte : ℕ → Type 0
IsByte b = b < 256

unescape_from-map :
    (bs : List ℕ) (s : Text)
    → All IsByte bs
    → unescape_from outside (concat (map escape_byte bs) ++ s) ≡ bs ++ unescape_from outside s
unescape_from-map [] s h = refl
unescape_from-map (b ∷ bs) s (k, h) =
    ap (unescape_from outside) (append_assoc (escape_byte b) (concat (map escape_byte bs)) s)
    ∙ unescape_from-escape_byte b (concat (map escape_byte bs) ++ s) k
    ∙ ap (b ∷◌) (unescape_from-map bs s h)

utf8-IsByte : (p : ℕ) → p < 0x110000 → All IsByte (utf8 p)
unfolding utf8
utf8-IsByte p h = elim (Bool-cases (ltb p 0x80)) [
  | inl e ↦ rw (e, utf8) (ground arith, tt)
  | inr e ↦ elim (Bool-cases (ltb p 0x800)) [
    | inl f ↦ rw (e, f, utf8) (ground arith, (ground arith, tt))
    | inr f ↦ elim (Bool-cases (ltb p 0x10000)) [
      | inl g ↦ rw (e, f, g, utf8) (ground arith, (ground arith, (ground arith, tt)))
      | inr g ↦
          rw (e, f, g, utf8) (ground arith, (ground arith, (ground arith, (ground arith, tt))))
    ]
  ]
]

unreserved-ascii : (p : ℕ) → unreserved p ≡ true → (p < 0x80) × ((p == b'%') ≡ false)
unfolding unreserved
unreserved-ascii p e = ground (arith, e)

unescape_from-escape_point :
    (p : ℕ) (s : Text)
    → p < 0x110000
    → unescape_from outside (escape_point p ++ s) ≡ utf8 p ++ unescape_from outside s
unfolding escape_point
unescape_from-escape_point p s h = elim (Bool-cases (unreserved p)) [
  | inl e ↦
      let (small, other) = unreserved-ascii p e in
      rw (e, escape_point) (unfold unescape_from in unfold utf8 in ground (arith, small, other))
  | inr e ↦ rw (e, escape_point) (unescape_from-map (utf8 p) s (utf8-IsByte p h))
]

-- One character.
read_component-escape_point :
    (p : ℕ) (s : Text)
    → p < 0x110000
    → read_component (escape_point p ++ s) ≡ units p ++ read_component s
unfolding read_component
read_component-escape_point p s h =
    ap (decode_utf8 between) (unescape_from-escape_point p s h)
    ∙ decode_utf8-utf8 p (unescape_from outside s) h

pub prepend-some :
    (a : Text) (o : Option Text) (t : Text)
    → prepend a o ≡ some t
    → (u : Text) × (o ≡ some u) × (a ++ u ≡ t)
prepend-some a none t e = absurd (ground (arith, e))
prepend-some a (some u) t e = (u, refl, ground (arith, e))

-- The text with the high surrogate that waits for its other half.
abbrev with_waiting : Option ℕ → Text → Text
with_waiting none s = s
with_waiting (some high) s = high ∷ s

abbrev IsWaiting : Option ℕ → Type 0
IsWaiting none = Unit
IsWaiting (some high) = high_surrogate high ≡ true

abbrev pub IsUnit : ℕ → Type 0
IsUnit c = c < 0x10000

units-pair :
    (high c : ℕ)
    → high_surrogate high ≡ true
    → low_surrogate c ≡ true
    → (0x10000 + (high - 0xD800) * 1024 + (c - 0xDC00) < 0x110000)
      × (units (0x10000 + (high - 0xD800) * 1024 + (c - 0xDC00)) ≡ high ∷ c ∷ [])
units-pair high c h l = (ground (arith, h, l), ground (arith, h, l))

units-single : (c : ℕ) → IsUnit c → units c ≡ c ∷ []
units-single c h = ground (arith, h)

read_component-nil : read_component [] ≡ []
unfolding read_component
read_component-nil = refl

read_component-encode_from :
    (o : Option ℕ) (s t : Text)
    → IsWaiting o
    → All IsUnit s
    → encode_from o s ≡ some t
    → read_component t ≡ with_waiting o s
unfolding encode_from
read_component-encode_from none [] t w h e =
    let nothing : [] ≡ t = ground (arith, e) in
    subst (λ u. read_component u ≡ []) nothing read_component-nil
read_component-encode_from (some high) [] t w h e = absurd (ground (arith, e))
read_component-encode_from (some high) (c ∷ s) t w (k, h) e = elim (Bool-cases (low_surrogate c)) [
  | inl l ↦
      let p = 0x10000 + (high - 0xD800) * 1024 + (c - 0xDC00) in
      let (u, f, g) = prepend-some (escape_point p) (encode_from none s) t (ground (arith, e, l)) in
      let (small, two) = units-pair high c w l in
      subst (λ u. read_component u ≡ high ∷ c ∷ s) g
        (read_component-escape_point p u small
          ∙ ap (◌++ read_component u) two
          ∙ ap (λ r. high ∷ c ∷ r) (read_component-encode_from none s u tt h f))
  | inr l ↦ absurd (ground (arith, e, l))
]
read_component-encode_from none (c ∷ s) t w (k, h) e = elim (Bool-cases (high_surrogate c)) [
  | inl l ↦ read_component-encode_from (some c) s t l h (ground (arith, e, l))
  | inr l ↦ elim (Bool-cases (low_surrogate c)) [
    | inl m ↦ absurd (ground (arith, e, l, m))
    | inr m ↦
        let (u, f, g) =
          prepend-some (escape_point c) (encode_from none s) t (ground (arith, e, l, m)) in
        subst (λ u. read_component u ≡ c ∷ s) g
          (read_component-escape_point c u (omega (arith, k))
            ∙ ap (◌++ read_component u) (units-single c k)
            ∙ ap (c ∷◌) (read_component-encode_from none s u tt h f))
  ]
]

-- A server that reads a percent-encoded segment as UTF-8 reads the text that the page has encoded:
-- the encoding of a text of UTF-16 code units, if there is one, stands for that text and for no other.
pub read_component-encode_uri_component :
    (s t : Text) → All IsUnit s → encode_uri_component s ≡ some t → read_component t ≡ s
unfolding encode_uri_component
read_component-encode_uri_component s t h e = read_component-encode_from none s t tt h e
