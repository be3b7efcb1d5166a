-- ===== src/Web/Uri/Segment.antt =====
-- Which encoded components a path keeps as one segment: RFC 3986 gives the segments "." and ".." a
-- meaning of their own, and a server cleans empty ones away.
use screwlogger.Base.{
  ℕ, ◌+◌, ◌-◌, ◌*◌, ◌≤◌, ◌≡◌, refl, sym, ap, ◌∙◌, inl, inr, Bool, true, false, not, ◌&&◌, none,
  some, [], ◌∷◌, ◌++◌, arith, ◌==◌, Bool-cases, All, Text,
}
use mathlib.Core.Path.{subst}
use screwlogger.Web.Uri.{
  unreserved, escape_byte, utf8, escape_point, high_surrogate, low_surrogate, encode_from,
  encode_uri_component,
}
use screwlogger.Web.Uri.Safe.{IsSafe, encode_uri_component-IsSafe}
use screwlogger.Web.Uri.RoundTrip.{prepend-some}

-- The empty text, "." and "..".
abbrev pub is_dots : Text → Bool
is_dots [] = true
is_dots (c ∷ []) = c == b'.'
is_dots (c ∷ d ∷ []) = c == b'.' && d == b'.'
is_dots _ = false

-- The encoding of a text, which is empty or of dots only if that text is.
abbrev pub IsSegment : Text → Type 0
IsSegment t =
    (s : Text) × (encode_uri_component s ≡ some t) × All IsSafe t × (is_dots t ≡ is_dots s)

abbrev no_percent : Text → Bool
no_percent [] = true
no_percent (c ∷ s) = not (c == b'%') && no_percent s

escape_point_percent :
    (p : ℕ) (u : Text) → unreserved p ≡ false → no_percent (escape_point p ++ u) ≡ false
unfolding escape_point utf8 escape_byte
escape_point_percent p u e = ground arith

escape_point_plain : (p : ℕ) → unreserved p ≡ true → escape_point p ≡ p ∷ []
unfolding escape_point
escape_point_plain p e = ground (arith, e)

unreserved_small : (p : ℕ) → 0x10000 ≤ p → unreserved p ≡ false
unfolding unreserved
unreserved_small p h = ground arith

encode_from_percent :
    (high : ℕ) (s t : Text) → encode_from (some high) s ≡ some t → no_percent t ≡ false
unfolding encode_from
encode_from_percent high [] t e = cc
encode_from_percent high (c ∷ s) t e = elim (Bool-cases (low_surrogate c)) [
  | inl l ↦
      let p = 0x10000 + (high - 0xD800) * 1024 + (c - 0xDC00) in
      let (u, f, g) = prepend-some (escape_point p) (encode_from none s) t (ground (arith, e, l)) in
      ap no_percent (sym g) ∙ escape_point_percent p u (unreserved_small p (omega arith))
  | inr l ↦ absurd (ground (arith, e, l))
]

-- A text without a percent sign is the encoding of itself only.
encode_from_plain : (s t : Text) → encode_from none s ≡ some t → no_percent t ≡ true → s ≡ t
unfolding encode_from
encode_from_plain [] t e n = ground (arith, e)
encode_from_plain (c ∷ s) t e n = elim (Bool-cases (high_surrogate c)) [
  | inl h ↦ absurd (ground (arith, encode_from_percent c s t (ground (arith, e, h)), n))
  | inr h ↦ elim (Bool-cases (low_surrogate c)) [
    | inl l ↦ absurd (ground (arith, e, h, l))
    | inr l ↦
        let (u, f, g) =
          prepend-some (escape_point c) (encode_from none s) t (ground (arith, e, h, l)) in
        elim (Bool-cases (unreserved c)) [
          | inl k ↦
              let plain : escape_point c ≡ c ∷ [] = escape_point_plain c k in
              let whole : c ∷ u ≡ t = ap (◌++ u) (sym plain) ∙ g in
              ap (c ∷◌) (encode_from_plain s u f (ground (arith, ap no_percent whole, n))) ∙ whole
          | inr k ↦ absurd (ground (arith, escape_point_percent c u k, ap no_percent g, n))
        ]
  ]
]

encode_plain : (s t : Text) → encode_uri_component s ≡ some t → no_percent t ≡ true → s ≡ t
unfolding encode_uri_component
encode_plain s t e n = encode_from_plain s t e n

is_dots_plain : (t : Text) → is_dots t ≡ true → no_percent t ≡ true
is_dots_plain [] e = refl
is_dots_plain (c ∷ []) e = ground (arith, e)
is_dots_plain (c ∷ d ∷ []) e = ground (arith, e)
is_dots_plain (c ∷ d ∷ f ∷ s) e = cc

encode_dots : (s : Text) → is_dots s ≡ true → encode_uri_component s ≡ some s
unfolding encode_uri_component encode_from escape_point unreserved
encode_dots [] e = refl
encode_dots (c ∷ []) e =
    let f : b'.' ≡ c = ground (arith, e) in
    subst (λ c. encode_from none (c ∷ []) ≡ some (c ∷ [])) f refl
encode_dots (c ∷ d ∷ []) e =
    let f : b'.' ≡ c = ground (arith, e) in
    let g : b'.' ≡ d = ground (arith, e) in
    subst (λ c. encode_from none (c ∷ d ∷ []) ≡ some (c ∷ d ∷ [])) f
      (subst (λ d. encode_from none (b'.' ∷ d ∷ []) ≡ some (b'.' ∷ d ∷ [])) g refl)
encode_dots (c ∷ d ∷ f ∷ s) e = cc

pub encode_uri_component-IsSegment : (s t : Text) → encode_uri_component s ≡ some t → IsSegment t
encode_uri_component-IsSegment s t e = (
  s,
  e,
  encode_uri_component-IsSafe s t e,
  elim (Bool-cases (is_dots t)) [
    | inl d ↦ ap is_dots (sym (encode_plain s t e (is_dots_plain t d)))
    | inr d ↦ elim (Bool-cases (is_dots s)) [
      | inl f ↦ let same : s ≡ t = ground (arith, encode_dots s f, e) in ap is_dots (sym same)
      | inr f ↦ d ∙ sym f
    ]
  ],
)
