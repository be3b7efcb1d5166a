-- ===== src/Web/Format.antt =====
-- `fmtTs` and `fmtDuration` of internal/server/web/app.js, and decimal printing, which string
-- concatenation with a number does.
pub mod Decimal
pub mod Duration
use screwlogger.Base.{
  ℕ, ◌+◌, ◌*◌, ◌/◌, ◌%◌, Bool, Option, none, some, [], ◌∷◌, ltb, if◌then◌else◌, Text, codes, concat,
  ℤ, pos, negsuc,
}
use Decimal.{show}

-- What the page takes of the browser: dates in the local zone and language, and whether Chart.js was
-- loaded.
pub record Browser : Type 0 where
  -- `new Date(ms).toLocaleString()`
  pub locale_string : ℕ → Text
  -- `getMonth()`, `getDate()` and `getHours()` of `new Date(ms)`
  pub month : ℕ → ℕ
  pub date : ℕ → ℕ
  pub hour : ℕ → ℕ
  -- `d.setHours(0, 0, 0, 0); d.getTime()` for a `d` made at the time `ms`
  pub midnight : ℕ → ℕ
  -- whether `Chart` is defined
  pub chart_loaded : Bool

-- the em dash
abbrev pub dash : Text
dash = 8212 ∷ []

-- `fmtTs`
unfoldable pub fmt_ts : Browser → Option ℕ → Text
fmt_ts b none = dash
fmt_ts b (some sec) = b.locale_string (sec * 1000)

abbrev last_two : Text → Text
last_two [] = []
last_two (a ∷ []) = a ∷ []
last_two (a ∷ b ∷ []) = a ∷ b ∷ []
last_two (a ∷ b ∷ c ∷ s) = last_two (b ∷ c ∷ s)

-- `("0" + n).slice(-2)`
unfoldable pub pad2 : ℕ → Text
pad2 n = last_two (b'0' ∷ show n)

-- `hourLabel`
unfoldable pub hour_label : Browser → ℕ → Text
hour_label b ts =
    let ms = ts * 1000 in
    concat (
      pad2 (b.month ms + 1)
      ∷ codes "-"
      ∷ pad2 (b.date ms)
      ∷ codes " "
      ∷ pad2 (b.hour ms)
      ∷ codes ":00"
      ∷ [])

-- A finite number that is not an integer in general: `num / den`, with `den` positive.
pub record Number : Type 0 where
  pub num : ℤ
  pub den : ℕ

-- `Math.round` of a number that is not negative: the nearest integer, a half rounded up.
unfoldable pub round : ℕ → ℕ → ℕ
round n d = (2 * n + d) / (2 * d)

-- The body of `fmtDuration` below the two tests and the rounding.
unfoldable pub fmt_whole : ℕ → Text
fmt_whole sec =
    let h = sec / 3600 in
    let m = sec % 3600 / 60 in
    if ltb 0 h
    then if ltb 0 m
      then concat (show h ∷ codes "h " ∷ show m ∷ codes "m" ∷ [])
      else concat (show h ∷ codes "h" ∷ [])
    else if ltb 0 m
    then concat (show m ∷ codes "m" ∷ [])
    else codes "<1m"

fmt_signed : ℤ → ℕ → Text
fmt_signed (pos n) d = fmt_whole (round n d)
fmt_signed (negsuc n) d = dash

-- `fmtDuration`; `none` for a null or undefined argument.
unfoldable pub fmt_duration : Option Number → Text
unfolding fmt_signed
fmt_duration none = dash
fmt_duration (some x) = fmt_signed x.num x.den
