-- ===== src/Server/Query/Agreement.antt =====
-- The timeline of the page, `bucketByHour` of internal/server/web/app.js, against the dwell model of
-- internal/server/query.go.
use screwlogger.Base.{
  ℕ, suc, ◌≤◌, ◌<◌, ◌≡◌, refl, ap, ◌∙◌, ◌≢◌, inl, inr, Bool, true, false, List, [], ◌∷◌, map, arith,
  leb, Bool-cases, length, take_all, sum, All, Text, text_eq_iff,
}
use screwlogger.Web.Timeline.{hourly_series, next_ts, gap}
use screwlogger.Web.Timeline.Bounds.{spent, gap_lem, hourly_series-sum}
use screwlogger.Server.Query.{
  Heartbeat, rng, insert_row, order_by_ts, lead, secs, dwell_of, dwell, seconds_in, active_ratio,
  list_events, event_of,
}

-- A row that `rng` keeps for that device.
abbrev pub IsKept : Text → ℕ → ℕ → Heartbeat → Type 0
IsKept device from to r = (r.device_id ≡ device) × (from ≤ r.ts) × (r.ts < to)

pub rng-IsKept :
    (device : Text) (from to : ℕ) (rows : List Heartbeat)
    → device ≢ []
    → All (IsKept device from to) (rng device from to rows)
unfolding rng
rng-IsKept device from to [] ne = tt
rng-IsKept [] from to (r ∷ rows) ne = absurd (ne refl)
rng-IsKept (c ∷ device) from to (r ∷ rows) ne =
    ground (arith, rng-IsKept (c ∷ device) from to rows ne, text_eq_iff r.device_id (c ∷ device))

pub insert_row-All {ℓ} :
    (P : Heartbeat → Type ℓ) (r : Heartbeat) (xs : List Heartbeat)
    → P r
    → All P xs
    → All P (insert_row r xs)
unfolding insert_row
insert_row-All P r [] p h = (p, tt)
insert_row-All P r (x ∷ xs) p (q, h) = elim (Bool-cases (leb r.ts x.ts)) [
  | inl e ↦ rw (e, insert_row) (p, (q, h))
  | inr e ↦ rw (e, insert_row) (q, insert_row-All P r xs p h)
]

pub order_by_ts-All {ℓ} :
    (P : Heartbeat → Type ℓ) (xs : List Heartbeat) → All P xs → All P (order_by_ts xs)
unfolding order_by_ts
order_by_ts-All P [] h = tt
order_by_ts-All P (x ∷ xs) (p, h) = insert_row-All P x (order_by_ts xs) p (order_by_ts-All P xs h)

length-insert_row :
    (r : Heartbeat) (xs : List Heartbeat) → length (insert_row r xs) ≡ suc (length xs)
unfolding insert_row
length-insert_row r [] = refl
length-insert_row r (x ∷ xs) = ground (arith, length-insert_row r xs)

length-order_by_ts : (xs : List Heartbeat) → length (order_by_ts xs) ≡ length xs
unfolding order_by_ts
length-order_by_ts [] = refl
length-order_by_ts (x ∷ xs) = length-insert_row x (order_by_ts xs) ∙ ap suc (length-order_by_ts xs)

-- The seconds of a row of a device, by the page and by the server.
gap-secs :
    (device : Text) (from to : ℕ) (r : Heartbeat) (rest : List Heartbeat)
    → r.device_id ≡ device
    → All (IsKept device from to) rest
    → gap (next_ts (map event_of rest) to) r.ts ≡ secs (lead r.device_id rest) to r.ts
unfolding lead secs
gap-secs device from to r [] e h = ground (arith, gap_lem to r.ts)
gap-secs device from to r (x ∷ rest) e ((d, ge, lt), h) =
    ground (arith, gap_lem x.ts r.ts, text_eq_iff x.device_id r.device_id)

pub spent-dwell_of :
    (b : Bool) (device : Text) (from to : ℕ) (rows : List Heartbeat)
    → All (IsKept device from to) rows
    → spent b (map event_of rows) to ≡ seconds_in b (dwell_of rows to)
unfolding spent dwell_of seconds_in
spent-dwell_of b device from to [] h = refl
spent-dwell_of true device from to (r ∷ rest) ((d, ge, lt), h) =
    ground (arith, gap-secs device from to r rest d h, spent-dwell_of true device from to rest h)
spent-dwell_of false device from to (r ∷ rest) ((d, ge, lt), h) =
    ground (arith, gap-secs device from to r rest d h, spent-dwell_of false device from to rest h)

list_events-eq :
    (device : Text) (from to : ℕ) (rows : List Heartbeat)
    → length (rng device from to rows) ≤ 10000
    → list_events device from to 10000 rows ≡ order_by_ts (rng device from to rows)
unfolding list_events
list_events-eq device from to rows h =
    take_all 10000 _ (rw (length-order_by_ts (rng device from to rows)) h)

-- For one device with at most 10000 heartbeats in the window, the timeline that the page draws from
-- the raw events shows, over all hours, exactly the active and the idle seconds that the server
-- computes for the ratio chart.
pub hourly_series-active_ratio :
    (device : Text) (from to : ℕ) (rows : List Heartbeat)
    → device ≢ []
    → length (rng device from to rows) ≤ 10000
    → (sum (hourly_series (map event_of (list_events device from to 10000 rows)) to).active
        ≡ (active_ratio device from to rows).active_seconds)
      × (sum (hourly_series (map event_of (list_events device from to 10000 rows)) to).idle
          ≡ (active_ratio device from to rows).idle_seconds)
unfolding active_ratio dwell
hourly_series-active_ratio device from to rows ne few =
    rw (list_events-eq device from to rows few) (
      let sorted = order_by_ts (rng device from to rows) in
      let kept =
        order_by_ts-All (IsKept device from to) (rng device from to rows)
          (rng-IsKept device from to rows ne) in
      let (a, i) = hourly_series-sum (map event_of sorted) to in
      (
        a ∙ spent-dwell_of true device from to sorted kept,
        i ∙ spent-dwell_of false device from to sorted kept,
      ))
