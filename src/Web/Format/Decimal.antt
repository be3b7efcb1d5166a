-- ===== src/Web/Format/Decimal.antt =====
-- Decimal printing: what `"" + n` gives for a whole number.
use screwlogger.Base.{ℕ, zero, suc, ◌+◌, ◌/◌, ◌%◌, Text, [], ◌∷◌, ◌++◌, true, false, ltb, ◌≡◌, refl}

-- The first argument bounds the number of digits.
unfoldable pub digits : ℕ → ℕ → Text
digits zero n = []
digits (suc fuel) n = elim (ltb n 10) [
  | true ↦ (b'0' + n) ∷ []
  | false ↦ digits fuel (n / 10) ++ (b'0' + n % 10) ∷ []
]

-- A number has at most as many digits as its value and one more.
unfoldable pub show : ℕ → Text
unfolding digits
show n = digits (suc n) n

show_10203 : show 10203 ≡ b'1' ∷ b'0' ∷ b'2' ∷ b'0' ∷ b'3' ∷ []
unfolding show
show_10203 = refl
