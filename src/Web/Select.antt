-- ===== src/Web/Select.antt =====
-- The controls of the dashboards in internal/server/web/app.js: `populateDeviceSelect` and
-- `rangeWindow`.
pub mod Laws
use screwlogger.Base.{
  ℕ, ◌+◌, ◌*◌, ◌/◌, Bool, false, ◌||◌, List, [], ◌∷◌, map, if◌then◌else◌, Text, codes, concat,
  text_eq, ℤ, pos, negsuc, sub_ℕ,
}
use screwlogger.Web.Wire.{Device}
use screwlogger.Web.Rows.{is_revoked}
use screwlogger.Web.Format.{Browser}
use screwlogger.Web.Format.Decimal.{show}

pub record Entry : Type 0 where
  pub value : Text
  pub label : Text

-- A `select` element. Its value is that of the chosen entry, or empty.
pub record Select : Type 0 where
  pub entries : List Entry
  pub value : Text

unfoldable pub entry_of : Device → Entry
entry_of d = record {
  value = d.id;
  label = concat (d.name ∷ (if is_revoked d then codes " (revoked)" else []) ∷ []);
}

abbrev pub all_devices : Entry
all_devices = record { value = []; label = codes "All devices" }

-- `find` with the callback `o.value === prev`, as a test.
unfoldable pub has_value : Text → List Entry → Bool
has_value v [] = false
has_value v (e ∷ es) = text_eq e.value v || has_value v es

-- `populateDeviceSelect`. A browser chooses the first entry of a list that was emptied and filled.
unfoldable pub populate : List Device → Select → Select
unfolding entry_of has_value
populate ds sel =
    let entries = all_devices ∷ map entry_of ds in
    record { entries = entries; value = if has_value sel.value entries then sel.value else [] }

-- The values of the range selector; any other than the first two counts as seven days.
pub data Preset : Type 0 where
  today days30 days7 : Preset

-- The time is in milliseconds. A difference may lie before 1970.
pub record Window : Type 0 where
  pub from : ℤ
  pub to : ℕ

-- `rangeWindow`
unfoldable pub range_window : Browser → ℕ → Preset → Window
range_window b now today = record { from = pos (b.midnight now / 1000); to = now / 1000 }
range_window b now days30 = record { from = sub_ℕ (now / 1000) (30 * 24 * 3600); to = now / 1000 }
range_window b now days7 = record { from = sub_ℕ (now / 1000) (7 * 24 * 3600); to = now / 1000 }

-- String concatenation with an integer.
unfoldable pub show_ℤ : ℤ → Text
show_ℤ (pos n) = show n
show_ℤ (negsuc n) = b'-' ∷ show (n + 1)
