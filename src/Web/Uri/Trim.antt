-- ===== src/Web/Uri/Trim.antt =====
-- What `trim` leaves.
use screwlogger.Base.{
  ◌≡◌, refl, sym, ap, ◌∙◌, inl, inr, true, false, [], ◌∷◌, ◌++◌, reverse, Bool-cases, All, Text,
}
use mathlib.Core.List.{reverse-append, reverse-reverse}
use screwlogger.Web.Uri.{is_space, trim_start, trim}

abbrev IsSpaces : Text → Type 0
IsSpaces s = All (λ c. is_space c ≡ true) s

-- The text begins with a character that is not white space, or is empty.
abbrev pub StartsInk : Text → Type 0
StartsInk [] = Unit
StartsInk (c ∷ s) = is_space c ≡ false

trim_start-StartsInk : (s : Text) → StartsInk (trim_start s)
unfolding trim_start
trim_start-StartsInk [] = tt
trim_start-StartsInk (c ∷ s) = elim (Bool-cases (is_space c)) [
  | inl e ↦ rw e (trim_start-StartsInk s)
  | inr e ↦ rw e e
]

trim_start-eq : (s : Text) → StartsInk s → trim_start s ≡ s
unfolding trim_start
trim_start-eq [] h = refl
trim_start-eq (c ∷ s) h = rw h

-- The result of `trim` ends in no white space.
trim-EndsInk : (s : Text) → StartsInk (reverse (trim s))
unfolding trim
trim-EndsInk s = rw reverse-reverse (trim_start-StartsInk _)

StartsInk-left : (s t : Text) → StartsInk (s ++ t) → StartsInk s
StartsInk-left [] t h = tt
StartsInk-left (c ∷ s) t h = h

trim_start-split : (s : Text) → (cut : Text) × (cut ++ trim_start s ≡ s)
unfolding trim_start
trim_start-split [] = ([], refl)
trim_start-split (c ∷ s) = elim (Bool-cases (is_space c)) [
  | inl e ↦ let (cut, p) = trim_start-split s in (c ∷ cut, rw e (ap (c ∷◌) p))
  | inr e ↦ ([], rw e)
]

-- What `trim` cuts off the end leaves the beginning as it was.
trim_end-StartsInk : (s : Text) → StartsInk s → StartsInk (reverse (trim_start (reverse s)))
trim_end-StartsInk s h =
    let (cut, p) = trim_start-split (reverse s) in
    let whole : reverse (trim_start (reverse s)) ++ reverse cut ≡ s =
      sym (reverse-append cut (trim_start (reverse s))) ∙ ap reverse p ∙ reverse-reverse s in
    StartsInk-left _ (reverse cut) (rw whole h)

trim-StartsInk : (s : Text) → StartsInk (trim s)
unfolding trim
trim-StartsInk s = trim_end-StartsInk (trim_start s) (trim_start-StartsInk s)

-- Trimming again changes nothing.
pub trim-trim : (s : Text) → trim (trim s) ≡ trim s
trim-trim s = again (trim s) (trim-StartsInk s) (trim-EndsInk s)
  where
    again : (t : Text) → StartsInk t → StartsInk (reverse t) → trim t ≡ t
    again t h k =
        unfold trim in
        (rw (trim_start-eq t h) (ap reverse (trim_start-eq (reverse t) k) ∙ reverse-reverse t))
