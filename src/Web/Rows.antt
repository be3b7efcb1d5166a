-- ===== src/Web/Rows.antt =====
-- The rows that `loadDevices`, `loadRules` and `loadKeys` of internal/server/web/app.js build: the
-- HTML of the cells and the buttons behind them.
pub mod Reading
pub mod Buttons
use screwlogger.Base.{
  ℕ, Bool, true, false, Option, none, some, List, [], ◌∷◌, if◌then◌else◌, Text, codes, concat,
  text_eq,
}
use screwlogger.Web.Wire.{Device, Rule, Key}
use screwlogger.Web.Format.{Browser, fmt_ts, dash}
use screwlogger.Web.Escape.{esc, status_badge}

-- `tr.innerHTML` in `loadDevices`
unfoldable pub device_html : Browser → Device → Text
unfolding status_badge
device_html b d = concat (
    codes "<td class=\"dev-name\">"
    ∷ esc (some d.name)
    ∷ codes "</td>"
    ∷ codes "<td>"
    ∷ esc (some (fmt_ts b d.last_seen))
    ∷ codes "</td>"
    ∷ codes "<td>"
    ∷ status_badge d.status
    ∷ codes "</td>"
    ∷ codes "<td class=\"actions\"></td>"
    ∷ [])

-- `tr.innerHTML` in `loadRules`
unfoldable pub rule_html : Browser → Rule → Text
rule_html b r = concat (
    codes "<td><code>"
    ∷ esc (some r.pattern)
    ∷ codes "</code></td>"
    ∷ codes "<td>"
    ∷ esc (some r.category)
    ∷ codes "</td>"
    ∷ codes "<td>"
    ∷ esc (some (fmt_ts b (some r.updated_at)))
    ∷ codes "</td>"
    ∷ codes "<td class=\"actions\"></td>"
    ∷ [])

-- The cell for `revoked ? esc(fmtTs(k.revoked_at)) : "—"`
abbrev pub revoked_cell : Browser → Option ℕ → Text
revoked_cell b none = dash
revoked_cell b (some ts) = esc (some (fmt_ts b (some ts)))

-- `tr.innerHTML` in `loadKeys`
unfoldable pub key_html : Browser → Key → Text
key_html b k = concat (
    codes "<td>"
    ∷ esc (some k.label)
    ∷ codes "</td>"
    ∷ codes "<td>"
    ∷ esc (some (fmt_ts b (some k.created_at)))
    ∷ codes "</td>"
    ∷ codes "<td>"
    ∷ revoked_cell b k.revoked_at
    ∷ codes "</td>"
    ∷ codes "<td><code>"
    ∷ esc (some k.hash_prefix)
    ∷ codes "</code></td>"
    ∷ codes "<td class=\"actions\"></td>"
    ∷ [])

-- A button of a device's row, with its `disabled` flag.
pub data Action : Type 0 where
  rename revoke delete : Action

pub record Button : Type 0 where
  pub action : Action
  pub disabled : Bool

abbrev pub is_revoked : Device → Bool
is_revoked d = text_eq d.status (codes "revoked")

abbrev button : Action → Bool → Button
button a off = record { action = a; disabled = off }

-- The buttons that `loadDevices` appends to a row.
unfoldable pub device_buttons : Device → List Button
device_buttons d =
    button rename false
    ∷ button revoke (is_revoked d)
    ∷ (if is_revoked d then button delete false ∷ [] else [])

-- `btn.disabled = revoked` of `loadKeys`
unfoldable pub key_revoke_disabled : Key → Bool
key_revoke_disabled k = elim k.revoked_at [ none ↦ false | some _ ↦ true ]
