-- ===== src/Web/Format/Duration.antt =====
-- What `fmtDuration` shows, by a reader of its output.
use screwlogger.Base.{
  ℕ, zero, suc, ◌+◌, ◌-◌, ◌*◌, ◌/◌, ◌%◌, ◌<◌, ◌≤◌, Text, [], ◌∷◌, ◌++◌, ltb, ◌≡◌, ◌==◌, refl, ap,
  ◌∙◌, arith, Option, none, some, if◌then◌else◌, Bool-cases, inl, inr, ℤ, pos, negsuc, ◌↔◌, ◌≢◌,
}
use mathlib.Core.List.{append_assoc}
use native.Mathlib.Nat.{div-add-mod, mod-lt}
use screwlogger.Web.Format.{Number, round, fmt_signed, fmt_whole, fmt_duration, dash}
use screwlogger.Web.Format.Decimal.{digits, show}

-- A reader of durations such as "2h 5m", in minutes: a number before `h` counts sixty times, one
-- before `m` once; "<1m" stands for no whole minute, and the dash for no duration. `total` is what
-- has been read, `n` the number being read.
unfoldable pub minutes_from : ℕ → ℕ → Text → Option ℕ
minutes_from total n [] = some total
minutes_from total n (c ∷ s) =
    let rest =
      minutes_from (if c == b'h' then total + n * 60 else if c == b'm' then total + n else total)
        (if ltb c b'0' then 0 else if ltb b'9' c then 0 else n * 10 + (c - b'0')) s in
    if c == 8212 then none else if c == b'<' then some total else rest

unfoldable pub minutes_of : Text → Option ℕ
unfolding minutes_from
minutes_of s = minutes_from 0 0 s

minutes_from-digit :
    (total n d : ℕ) (s : Text)
    → d < 10
    → minutes_from total n ((b'0' + d) ∷ s) ≡ minutes_from total (n * 10 + d) s
unfolding minutes_from
minutes_from-digit total n d s h = ground arith

minutes_from-digits :
    (fuel n total : ℕ) (s : Text)
    → n < fuel
    → minutes_from total 0 (digits fuel n ++ s) ≡ minutes_from total n s
unfolding digits
minutes_from-digits zero n total s h = elim h [ ]
minutes_from-digits (suc fuel) n total s h = elim (Bool-cases (ltb n 10)) [
  | inl small ↦
      rw (small, digits)
        (minutes_from-digit total 0 n s (ground arith)
          ∙ ap (λ k. minutes_from total k s) (omega arith))
  | inr big ↦
      rw (big, digits)
        (rw append_assoc (
          minutes_from-digits fuel (n / 10) total ((b'0' + n % 10) ∷ s) (ground arith)
          ∙ minutes_from-digit total (n / 10) (n % 10) s (omega arith)
          ∙ ap (λ k. minutes_from total k s) (omega arith)))
]

minutes_from-show :
    (n total : ℕ) (s : Text) → minutes_from total 0 (show n ++ s) ≡ minutes_from total n s
unfolding show
minutes_from-show n total s = minutes_from-digits (suc n) n total s (omega arith)

minutes_from-hours :
    (total h : ℕ) (s : Text)
    → minutes_from total 0 (show h ++ b'h' ∷ s) ≡ minutes_from (total + h * 60) 0 s
minutes_from-hours total h s = minutes_from-show h total (b'h' ∷ s) ∙ unfold minutes_from in refl

minutes_from-minutes :
    (total m : ℕ) (s : Text)
    → minutes_from total 0 (show m ++ b'm' ∷ s) ≡ minutes_from (total + m) 0 s
minutes_from-minutes total m s = minutes_from-show m total (b'm' ∷ s) ∙ unfold minutes_from in refl

minutes_from-space :
    (total : ℕ) (s : Text) → minutes_from total 0 (b' ' ∷ s) ≡ minutes_from total 0 s
unfolding minutes_from
minutes_from-space total s = refl

minutes_of-fmt_whole : (sec : ℕ) → minutes_of (fmt_whole sec) ≡ some (sec / 60)
unfolding fmt_whole minutes_of
minutes_of-fmt_whole sec = ground (
  arith,
  minutes_from-hours 0 (sec / 3600) (b' ' ∷ (show (sec % 3600 / 60) ++ b'm' ∷ [])),
  minutes_from-hours 0 (sec / 3600) [],
  minutes_from-space (0 + sec / 3600 * 60) (show (sec % 3600 / 60) ++ b'm' ∷ []),
  minutes_from-minutes (0 + sec / 3600 * 60) (sec % 3600 / 60) [],
  minutes_from-minutes 0 (sec % 3600 / 60) [],
)

abbrev pub nonneg : ℕ → ℕ → Number
nonneg n d = record { num = pos n; den = d }

-- The seconds that `Math.round` gives are the nearest ones, a half rounded up.
pub IsNearest : ℕ → ℕ → ℕ → Type 0
IsNearest n d r = (2 * (r * d) ≤ 2 * n + d) × (2 * n + d < 2 * (r * d) + 2 * d)

round-IsNearest : (n d : ℕ) → 0 < d → IsNearest n d (round n d)
unfolding round IsNearest
round-IsNearest n d h =
    let p = div-add-mod (2 * n + d) (2 * d) in
    let q = mod-lt (2 * n + d) {m = 2 * d} (omega arith) in (grind arith, grind arith)

-- For a number n / d that is not negative, what `fmtDuration` shows reads as the whole minutes of
-- the nearest whole number of seconds.
pub minutes_of-fmt_duration :
    (n d : ℕ)
    → 0 < d
    → (r : ℕ) × IsNearest n d r × (minutes_of (fmt_duration (some (nonneg n d))) ≡ some (r / 60))
unfolding fmt_duration
minutes_of-fmt_duration n d h = (round n d, round-IsNearest n d h, minutes_of-fmt_whole (round n d))

minutes_of-dash : minutes_of dash ≡ none
unfolding minutes_of
minutes_of-dash = refl

fmt_whole-ne-dash : (sec : ℕ) → fmt_whole sec ≢ dash
fmt_whole-ne-dash sec e = cc (minutes_of-fmt_whole sec, ap minutes_of e, minutes_of-dash)

abbrev pub IsUnknown : Option Number → Type 0
IsUnknown none = Unit
IsUnknown (some x) = (n : ℕ) × (x.num ≡ negsuc n)

fmt_signed-eq-dash_iff : (k : ℤ) (d : ℕ) → (fmt_signed k d ≡ dash) ↔ ((n : ℕ) × (k ≡ negsuc n))
unfolding fmt_signed
fmt_signed-eq-dash_iff (pos n) d = (λ e. absurd (fmt_whole-ne-dash (round n d) e), λ e. cc (e.1))
fmt_signed-eq-dash_iff (negsuc n) d = (λ e. (n, refl), λ e. refl)

-- The dash is shown exactly for a missing or a negative number.
pub fmt_duration-eq-dash_iff : (x : Option Number) → (fmt_duration x ≡ dash) ↔ IsUnknown x
unfolding fmt_duration
fmt_duration-eq-dash_iff none = (λ e. tt, λ e. refl)
fmt_duration-eq-dash_iff (some x) = fmt_signed-eq-dash_iff x.num x.den
