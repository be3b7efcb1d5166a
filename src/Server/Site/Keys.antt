-- ===== src/Server/Site/Keys.antt =====
-- Columns with distinct entries, as a primary key of the tables of internal/server/store.go has them.
use screwlogger.Base.{
  ◌≡◌, refl, inl, inr, Bool, false, ◌||◌, List, [], ◌∷◌, ◌++◌, map, arith, if◌then◌else◌,
  Bool-cases, Text, text_eq, text_eq_iff,
}

unfoldable pub occurs : Text → List Text → Bool
occurs t [] = false
occurs t (s ∷ ss) = text_eq s t || occurs t ss

-- No entry occurs twice.
abbrev pub IsKey : List Text → Type 0
IsKey [] = Unit
IsKey (t ∷ ts) = (occurs t ts ≡ false) × IsKey ts

pub occurs-append :
    (t : Text) (xs ys : List Text) → occurs t (xs ++ ys) ≡ (occurs t xs || occurs t ys)
unfolding occurs
occurs-append t [] ys = refl
occurs-append t (x ∷ xs) ys = ground (arith, occurs-append t xs ys)

-- A new entry at the end.
pub IsKey-append :
    (t : Text) (ts : List Text) → occurs t ts ≡ false → IsKey ts → IsKey (ts ++ t ∷ [])
unfolding occurs
IsKey-append t [] h k = (refl, tt)
IsKey-append t (s ∷ ts) h (p, k) = (
  ground (arith, occurs-append s ts (t ∷ []), text_eq_iff s t, text_eq_iff t s, p, h),
  IsKey-append t ts (ground (arith, h)) k,
)

module _ {A : Type 0} (column : A → Text) (drops : A → Bool) where
  -- The rows that a deletion leaves.
  abbrev pub remaining : List A → List A
  remaining [] = []
  remaining (x ∷ xs) = if drops x then remaining xs else x ∷ remaining xs

  occurs-remaining :
      (t : Text) (xs : List A)
      → occurs t (map column xs) ≡ false
      → occurs t (map column (remaining xs)) ≡ false
  unfolding occurs
  occurs-remaining t [] h = refl
  occurs-remaining t (x ∷ xs) h = ground (arith, occurs-remaining t xs, h)

  pub IsKey-remaining : (xs : List A) → IsKey (map column xs) → IsKey (map column (remaining xs))
  IsKey-remaining [] k = tt
  IsKey-remaining (x ∷ xs) (p, k) = elim (Bool-cases (drops x)) [
    | inl e ↦ rw e (IsKey-remaining xs k)
    | inr e ↦ rw e (occurs-remaining (column x) xs p, IsKey-remaining xs k)
  ]
