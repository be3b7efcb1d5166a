-- ===== src/Web/Examples/Texts.antt =====
-- Texts of internal/server/web/app.js: escaping, rows, addresses, durations.
use screwlogger.Base.{ℕ, ◌-◌, ◌/◌, ◌≡◌, refl, true, none, some, [], ◌∷◌, arith, codes}
use screwlogger.Web.Uri.Reading.{read_component}
use screwlogger.Web.Uri.RoundTrip.{read_component-encode_uri_component}
use screwlogger.Web.Wire.{Device, Rule, Key}
use screwlogger.Web.Format.{Browser, fmt_duration, hour_label, fmt_whole, round, pad2}
use screwlogger.Web.Format.Decimal.{show}
use screwlogger.Web.Format.Duration.{nonneg, IsNearest, minutes_of, minutes_of-fmt_duration}
use screwlogger.Web.Escape.{esc, escape_text, escape_char}
use screwlogger.Web.Escape.Html.{tokens}
use screwlogger.Web.Rows.{device_html, rule_html, key_html}
use screwlogger.Web.Rows.Reading.{device_tokens, rule_tokens, key_tokens, rows_read_back}
use screwlogger.Web.Uri.{encode_uri_component, trim, unreserved, escape_point, is_space}

-- A browser whose clock is at one time of day.
abbrev pub plain : Browser
plain = record {
  locale_string = λ ms. codes "<now>";
  month = λ ms. 8;
  date = λ ms. 29;
  hour = λ ms. 7;
  midnight = λ ms. ms - 60000;
  chart_loaded = true;
}

abbrev pub hostile : Device
hostile = record {
  id = codes "0a1f";
  name = codes "<img src=x onerror=\"go('&')\">";
  last_seen = none;
  status = codes "revoked";
}

esc_hostile : esc (some (codes "<a b=\"c\">&'")) ≡ codes "&lt;a b=&quot;c&quot;&gt;&amp;&#39;"
unfolding esc escape_text escape_char
esc_hostile = refl

abbrev some_rule : Rule
some_rule = record { pattern = codes "mes_*.exe"; category = codes "A&B"; updated_at = 5 }

abbrev some_key : Key
some_key = record {
  label = codes "bot";
  created_at = 5;
  revoked_at = none;
  hash_prefix = codes "0a1f";
}

rows_read_back_example :
    (tokens (device_html plain hostile) ≡ device_tokens plain hostile)
    × (tokens (rule_html plain some_rule) ≡ rule_tokens plain some_rule)
    × (tokens (key_html plain some_key) ≡ key_tokens plain some_key)
rows_read_back_example = rows_read_back plain hostile some_rule some_key

encode_slash : encode_uri_component (codes "a/b c") ≡ some (codes "a%2Fb%20c")
unfolding encode_uri_component unreserved escape_point
encode_slash = refl

-- "é" and a character outside the basic plane, as its two surrogates.
encode_wide : encode_uri_component (233 ∷ 0xD83D ∷ 0xDE00 ∷ []) ≡ some (codes "%C3%A9%F0%9F%98%80")
unfolding encode_uri_component escape_point
encode_wide = refl

encode_lone : encode_uri_component (0xD83D ∷ b'a' ∷ []) ≡ none
unfolding encode_uri_component
encode_lone = refl

trim_both_ends : trim (codes "  PC 4 ") ≡ codes "PC 4"
unfolding trim is_space
trim_both_ends = refl

-- 7499.5 seconds are rounded to 7500.
durations :
    (fmt_duration (some (nonneg 14999 2)) ≡ codes "2h 5m")
    × (fmt_duration (some (nonneg 3600 1)) ≡ codes "1h")
    × (fmt_duration (some (nonneg 59 1)) ≡ codes "<1m")
    × (fmt_duration (some (nonneg 119 2)) ≡ codes "1m")
unfolding fmt_duration fmt_whole round show
durations = (refl, refl, refl, refl)

hour_of_label : hour_label plain 0 ≡ codes "09-29 07:00"
unfolding hour_label pad2 show
hour_of_label = refl

minutes_of-fmt_duration_example :
    (r : ℕ) × IsNearest 14999 2 r
    × (minutes_of (fmt_duration (some (nonneg 14999 2))) ≡ some (r / 60))
minutes_of-fmt_duration_example = minutes_of-fmt_duration 14999 2 (omega arith)

read_component-encode_uri_component_example :
    read_component (codes "%C3%A9%F0%9F%98%80") ≡ 233 ∷ 0xD83D ∷ 0xDE00 ∷ []
read_component-encode_uri_component_example =
    read_component-encode_uri_component (233 ∷ 0xD83D ∷ 0xDE00 ∷ []) (codes "%C3%A9%F0%9F%98%80")
      (omega arith, (omega arith, (omega arith, tt))) encode_wide
