-- ===== src/Web/Examples/Times.antt =====
-- The timeline and the controls of the dashboards of internal/server/web/app.js.
use screwlogger.Base.{
  ℕ, ◌+◌, ◌-◌, ◌*◌, ◌/◌, ◌≤◌, ◌<◌, ◌≡◌, refl, Bool, true, false, none, some, List, [], ◌∷◌, map,
  arith, if◌then◌else◌, sum, codes, pos_part, neg_part,
}
use screwlogger.Web.Wire.{Event}
use screwlogger.Web.Timeline.{
  max_gap, get, bucket_by_hour, hourly_series, gap, hour_key, add_dwell, put,
}
use screwlogger.Web.Timeline.Buckets.{dwell_in, has_hour, slot, get-bucket_by_hour}
use screwlogger.Web.Timeline.Sorted.{has, Increasing, hourly_series_lem}
use screwlogger.Web.Timeline.Bounds.{
  spent, hourly_series-sum, hourly_series-le, get-bucket_by_hour-lt,
}
use screwlogger.Web.Select.{Select, populate, has_value, range_window, today, days7, days30}
use screwlogger.Web.Select.Laws.{listed, populate_lem, range_window_bounds}
use screwlogger.Web.Examples.Texts.{plain, hostile}

abbrev at : ℕ → Bool → Event
at ts active = record { ts = ts; active = active }

-- Four heartbeats around an hour's end, with a pause of more than thirty seconds.
abbrev beats : List Event
beats = at 3580 true ∷ at 3595 true ∷ at 3605 false ∷ at 5000 true ∷ []

series_of_beats :
    hourly_series beats 5010
    ≡ record { hours = 0 ∷ 3600 ∷ []; active = 25 ∷ 10 ∷ []; idle = 0 ∷ 30 ∷ [] }
unfolding hourly_series gap hour_key add_dwell put
series_of_beats = refl

get-bucket_by_hour_example : get 3600 (bucket_by_hour beats 5010) ≡ (
    if has_hour 3600 beats
    then some (slot (dwell_in true 3600 beats 5010) (dwell_in false 3600 beats 5010))
    else none)
get-bucket_by_hour_example = get-bucket_by_hour 3600 beats 5010

hourly_series_lem_example :
    Increasing (hourly_series beats 5010).hours
    × ((h : ℕ) → has h (hourly_series beats 5010).hours ≡ has_hour h beats)
    × ((hourly_series beats 5010).active
        ≡ map (λ h. dwell_in true h beats 5010) (hourly_series beats 5010).hours)
    × ((hourly_series beats 5010).idle
        ≡ map (λ h. dwell_in false h beats 5010) (hourly_series beats 5010).hours)
hourly_series_lem_example = hourly_series_lem beats 5010

hourly_series-sum_example :
    (sum (hourly_series beats 5010).active ≡ spent true beats 5010)
    × (sum (hourly_series beats 5010).idle ≡ spent false beats 5010)
hourly_series-sum_example = hourly_series-sum beats 5010

hourly_series-le_example :
    (sum (hourly_series beats 5010).active + sum (hourly_series beats 5010).idle ≤ 5010 - 3580)
    × (sum (hourly_series beats 5010).active + sum (hourly_series beats 5010).idle ≤ max_gap * 4)
hourly_series-le_example =
    hourly_series-le (at 3580 true) (at 3595 true ∷ at 3605 false ∷ at 5000 true ∷ []) 5010
      (omega arith)

second_bucket : get 3600 (bucket_by_hour beats 5010) ≡ some (slot 10 30)
unfolding bucket_by_hour gap hour_key add_dwell put get
second_bucket = refl

get-bucket_by_hour-lt_example : 10 + 30 < 3600 + max_gap
get-bucket_by_hour-lt_example =
    get-bucket_by_hour-lt 1 beats 5010 (slot 10 30) (omega arith) second_bucket

abbrev chosen : Select
chosen = record { entries = []; value = codes "0a1f" }

populate_lem_example :
    ((populate (hostile ∷ []) chosen).value
      ≡ (if listed (codes "0a1f") (hostile ∷ []) then codes "0a1f" else []))
    × (has_value (populate (hostile ∷ []) chosen).value (populate (hostile ∷ []) chosen).entries
        ≡ true)
populate_lem_example = populate_lem (hostile ∷ []) chosen

range_window_bounds_example :
    ((range_window plain 1700000000000 days7).to ≡ 1700000000000 / 1000)
    × (pos_part (range_window plain 1700000000000 days7).from
        ≤ (range_window plain 1700000000000 days7).to)
    × (pos_part (range_window plain 1700000000000 today).from * 1000 ≤ plain.midnight 1700000000000)
    × (plain.midnight 1700000000000
        < pos_part (range_window plain 1700000000000 today).from * 1000 + 1000)
    × (pos_part (range_window plain 1700000000000 days7).from + 604800
        ≡ 1700000000000 / 1000 + neg_part (range_window plain 1700000000000 days7).from)
    × (pos_part (range_window plain 1700000000000 days30).from + 2592000
        ≡ 1700000000000 / 1000 + neg_part (range_window plain 1700000000000 days30).from)
range_window_bounds_example =
    range_window_bounds plain 1700000000000 days7 (omega arith) (omega arith)
