-- ===== src/Web/Timeline.antt =====
-- `bucketByHour` of internal/server/web/app.js and the preparation of the series in `renderHourly`.
-- A JavaScript object with hour keys is an association list in the order of insertion; sums of
-- seconds are exact, as they are below 2^53 there.
pub mod Hours
pub mod Buckets
pub mod Bounds
pub mod Sorted
use screwlogger.Base.{
  ℕ, ◌+◌, ◌*◌, ◌/◌, List, [], ◌∷◌, map, Option, none, some, Bool, true, false, if◌then◌else◌, ◌==◌,
  leb, ℤ, pos, negsuc, sub_ℕ, min_ℤ,
}
use screwlogger.Web.Wire.{Event}

-- `MAX_GAP`
abbrev pub max_gap : ℕ
max_gap = 30

-- The value of a bucket.
pub record Slot : Type 0 where
  pub active : ℕ
  pub idle : ℕ

abbrev pub Hours : Type 0
Hours = List (ℕ × Slot)

-- `buckets[key]`
unfoldable pub get : ℕ → Hours → Option Slot
get key [] = none
get key ((k, s) ∷ m) = if k == key then some s else get key m

-- `buckets[key] = s`
unfoldable pub put : ℕ → Slot → Hours → Hours
put key s [] = (key, s) ∷ []
put key s ((k, t) ∷ m) = if k == key then (k, s) ∷ m else (k, t) ∷ put key s m

-- `hourKey`
unfoldable pub hour_key : ℕ → ℕ
hour_key ts = ts / 3600 * 3600

-- `if (gap < 0) gap = 0`
abbrev clamp : ℤ → ℕ
clamp (pos n) = n
clamp (negsuc n) = 0

-- The gap of an event at `ts` up to `next`, the time of the next event or the end of the window.
unfoldable pub gap : ℕ → ℕ → ℕ
gap next ts = clamp (min_ℤ (sub_ℕ next ts) (pos max_gap))

-- What ends the gap of an event: the event after it, else `to`.
abbrev pub next_ts : List Event → ℕ → ℕ
next_ts [] to = to
next_ts (next ∷ _) to = next.ts

abbrev pub empty_slot : Slot
empty_slot = record { active = 0; idle = 0 }

-- `if (ev.active) buckets[key].active += gap; else buckets[key].idle += gap;`
abbrev pub bump : Bool → ℕ → Slot → Slot
bump true g s = record s { active = s.active + g }
bump false g s = record s { idle = s.idle + g }

-- `if (!buckets[key]) buckets[key] = { active: 0, idle: 0 };`
unfoldable pub ensure : ℕ → Hours → Hours
ensure key m = elim (get key m) [ none ↦ put key empty_slot m | some _ ↦ m ]

-- The last two statements of the loop. The second always finds the bucket.
unfoldable pub add_dwell : ℕ → Bool → ℕ → Hours → Hours
unfolding ensure
add_dwell key active g m =
    let created = ensure key m in
    elim (get key created) [ none ↦ created | some s ↦ put key (bump active g s) created ]

-- The loop of `bucketByHour`, from an event on.
unfoldable pub bucket_from : Hours → List Event → ℕ → Hours
bucket_from m [] to = m
bucket_from m (ev ∷ rest) to =
    bucket_from (add_dwell (hour_key ev.ts) ev.active (gap (next_ts rest to) ev.ts) m) rest to

unfoldable pub bucket_by_hour : List Event → ℕ → Hours
unfolding bucket_from
bucket_by_hour events to = bucket_from [] events to

-- `Object.keys(buckets).map(Number)`, up to its order, which the sort below settles.
unfoldable pub keys : Hours → List ℕ
keys [] = []
keys ((k, _) ∷ m) = k ∷ keys m

unfoldable pub insert : ℕ → List ℕ → List ℕ
insert k [] = k ∷ []
insert k (j ∷ js) = if leb k j then k ∷ j ∷ js else j ∷ insert k js

-- `sort(function (a, b) { return a - b; })`
unfoldable pub sort : List ℕ → List ℕ
unfolding insert
sort [] = []
sort (k ∷ ks) = insert k (sort ks)

abbrev pub slot_or : Option Slot → Slot
slot_or none = empty_slot
slot_or (some s) = s

-- The two data sets and the hours of the timeline chart.
pub record Series : Type 0 where
  pub hours : List ℕ
  pub active : List ℕ
  pub idle : List ℕ

unfoldable pub hourly_series : List Event → ℕ → Series
unfolding bucket_by_hour keys sort get
hourly_series events to =
    let buckets = bucket_by_hour events to in
    let hours = sort (keys buckets) in
    record {
      hours = hours;
      active = map (λ k. (slot_or (get k buckets)).active) hours;
      idle = map (λ k. (slot_or (get k buckets)).idle) hours;
    }
