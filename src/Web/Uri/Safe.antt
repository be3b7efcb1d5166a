-- ===== src/Web/Uri/Safe.antt =====
-- An encoded component cannot change the structure of the address that it is put into.
use screwlogger.Base.{
  ℕ, ◌≡◌, ◌≢◌, inl, inr, Bool, true, false, Option, none, some, List, [], ◌∷◌, map, arith,
  if◌then◌else◌, Bool-cases, All, All-append, Text, concat,
}
use mathlib.Core.Path.{subst}
use screwlogger.Web.Uri.{
  high_surrogate, low_surrogate, unreserved, escape_byte, utf8, escape_point, encode_from,
  encode_uri_component, prepend,
}

-- A character that is neither `/` nor `?`, `#` or `&`, nor the `=` of a query.
abbrev pub IsSafe : ℕ → Type 0
IsSafe c = (c ≢ b'/') × (c ≢ b'?') × (c ≢ b'#') × (c ≢ b'&') × (c ≢ b'=')

unreserved-IsSafe : (c : ℕ) → unreserved c ≡ true → IsSafe c
unfolding unreserved
unreserved-IsSafe c e = ground arith

escape_byte-IsSafe : (b : ℕ) → All IsSafe (escape_byte b)
unfolding escape_byte
escape_byte-IsSafe b = ground arith

escape_bytes-IsSafe : (bs : List ℕ) → All IsSafe (concat (map escape_byte bs))
escape_bytes-IsSafe [] = tt
escape_bytes-IsSafe (b ∷ bs) =
    All-append IsSafe (escape_byte b) (concat (map escape_byte bs)) (escape_byte-IsSafe b)
      (escape_bytes-IsSafe bs)

escape_point-IsSafe : (p : ℕ) → All IsSafe (escape_point p)
unfolding escape_point
escape_point-IsSafe p = elim (Bool-cases (unreserved p)) [
  | inl e ↦ rw e (unreserved-IsSafe p e, tt)
  | inr e ↦ rw e (escape_bytes-IsSafe (utf8 p))
]

-- A predicate on the result, if there is one.
abbrev IfSome : (Text → Type 0) → Option Text → Type 0
IfSome P none = Unit
IfSome P (some t) = P t

prepend-IsSafe :
    (s : Text) (o : Option Text)
    → All IsSafe s
    → IfSome (All IsSafe) o
    → IfSome (All IsSafe) (prepend s o)
prepend-IsSafe s none h k = tt
prepend-IsSafe s (some t) h k = All-append IsSafe s t h k

IfSome-if :
    (P : Text → Type 0) (b : Bool) (x y : Option Text)
    → IfSome P x
    → IfSome P y
    → IfSome P (if b then x else y)
IfSome-if P true x y h k = h
IfSome-if P false x y h k = k

encode_from-IsSafe : (o : Option ℕ) (s : Text) → IfSome (All IsSafe) (encode_from o s)
unfolding encode_from
encode_from-IsSafe none [] = tt
encode_from-IsSafe (some high) [] = tt
encode_from-IsSafe (some high) (c ∷ s) =
    IfSome-if (All IsSafe) (low_surrogate c) _ none
      (prepend-IsSafe _ _ (escape_point-IsSafe _) (encode_from-IsSafe none s)) tt
encode_from-IsSafe none (c ∷ s) =
    IfSome-if (All IsSafe) (high_surrogate c) _ _ (encode_from-IsSafe (some c) s) (
      IfSome-if (All IsSafe) (low_surrogate c) none _ tt
        (prepend-IsSafe _ _ (escape_point-IsSafe c) (encode_from-IsSafe none s)))

-- Whatever is encoded, the result holds no character that ends a path segment or a query parameter:
-- no `/`, `?`, `#`, `&` and `=`.
pub encode_uri_component-IsSafe : (s t : Text) → encode_uri_component s ≡ some t → All IsSafe t
unfolding encode_uri_component
encode_uri_component-IsSafe s t e = subst (IfSome (All IsSafe)) e (encode_from-IsSafe none s)
