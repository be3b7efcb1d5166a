-- ===== src/Web/Select/Laws.antt =====
-- What the controls of the dashboards keep.
use screwlogger.Base.{
  ℕ, ◌+◌, ◌*◌, ◌/◌, ◌≤◌, ◌<◌, ◌≡◌, refl, ap, Bool, true, false, ◌||◌, List, [], ◌∷◌, map, arith,
  if◌then◌else◌, Text, text_eq, text_eq_iff, text_eq_refl, pos_part, neg_part,
}
use screwlogger.Web.Wire.{Device}
use screwlogger.Web.Format.{Browser}
use screwlogger.Web.Select.{
  Select, has_value, populate, entry_of, Preset, today, days30, days7, range_window,
}

-- The device of that number is among those listed.
unfoldable pub listed : Text → List Device → Bool
listed v [] = false
listed v (d ∷ ds) = text_eq d.id v || listed v ds

has_value-entries : (v : Text) (ds : List Device) → has_value v (map entry_of ds) ≡ listed v ds
unfolding has_value listed entry_of
has_value-entries v [] = refl
has_value-entries v (d ∷ ds) = ap (text_eq d.id v ||◌) (has_value-entries v ds)

-- Filling the device selector keeps the choice if that device is still listed, and falls back to
-- "All devices" otherwise; the value is always that of one of the entries.
pub populate_lem :
    (ds : List Device) (sel : Select)
    → ((populate ds sel).value ≡ (if listed sel.value ds then sel.value else []))
      × (has_value (populate ds sel).value (populate ds sel).entries ≡ true)
unfolding populate has_value
populate_lem ds sel =
    ground (arith, text_eq_iff [] sel.value, text_eq_refl [], has_value-entries sel.value ds)

-- Each window ends at the current second, and its beginning is not after its end. That of today
-- begins in the second of the last midnight, that of seven days 604800 seconds before the end and that
-- of thirty days 2592000 seconds before, also if that is before 1970. The time is not before the last
-- midnight, and at most 25 hours after it.
pub range_window_bounds :
    (b : Browser) (now : ℕ) (p : Preset)
    → b.midnight now ≤ now
    → now ≤ b.midnight now + 25 * 3600 * 1000
    → ((range_window b now p).to ≡ now / 1000)
      × (pos_part (range_window b now p).from ≤ (range_window b now p).to)
      × (pos_part (range_window b now today).from * 1000 ≤ b.midnight now)
      × (b.midnight now < pos_part (range_window b now today).from * 1000 + 1000)
      × (pos_part (range_window b now days7).from + 604800
          ≡ now / 1000 + neg_part (range_window b now days7).from)
      × (pos_part (range_window b now days30).from + 2592000
          ≡ now / 1000 + neg_part (range_window b now days30).from)
unfolding range_window
range_window_bounds b now today h k = ground arith
range_window_bounds b now days30 h k = ground arith
range_window_bounds b now days7 h k = ground arith
