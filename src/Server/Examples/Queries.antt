-- ===== src/Server/Examples/Queries.antt =====
-- The dwell queries at a small table of heartbeats.
use screwlogger.Base.{
  ℕ, ◌-◌, ◌≤◌, ◌≡◌, refl, inr, Bool, true, false, some, List, [], ◌∷◌, map, arith, sum, Text, codes,
  text_eq,
}
use screwlogger.Web.Wire.{Bucket}
use screwlogger.Web.Timeline.{hourly_series}
use screwlogger.Server.Query.{
  Heartbeat, dwell, active_ratio, dwell_usage, list_events, event_of, rng,
}
use screwlogger.Server.Query.Agreement.{hourly_series-active_ratio}
use screwlogger.Server.Query.Totals.{total, total-dwell_usage}
use screwlogger.Server.Query.Bounds.{active_ratio-le}

abbrev beat : Text → ℕ → Text → Bool → Heartbeat
beat device ts app active = record {
  device_id = device;
  ts = ts;
  app = app;
  category = codes "MES";
  active = active;
}

-- Two devices, their rows out of order.
abbrev table : List Heartbeat
table =
    beat (codes "a") 130 (codes "x.exe") true
    ∷ beat (codes "b") 105 (codes "y.exe") true
    ∷ beat (codes "a") 100 (codes "x.exe") true
    ∷ beat (codes "a") 115 (codes "y.exe") false
    ∷ []

ratio_of_table :
    active_ratio (codes "a") 0 200 table
    ≡ record { active_seconds = 45; idle_seconds = 15; total_seconds = 60 }
unfolding active_ratio dwell text_eq
ratio_of_table = refl

hourly_series-active_ratio_example :
    (sum (hourly_series (map event_of (list_events (codes "a") 0 200 10000 table)) 200).active
      ≡ (active_ratio (codes "a") 0 200 table).active_seconds)
    × (sum (hourly_series (map event_of (list_events (codes "a") 0 200 10000 table)) 200).idle
        ≡ (active_ratio (codes "a") 0 200 table).idle_seconds)
unfolding rng text_eq
hourly_series-active_ratio_example =
    hourly_series-active_ratio (codes "a") 0 200 table (λ e. cc) (omega arith)

total-dwell_usage_example :
    (bs : List Bucket) × (dwell_usage [] 0 200 (codes "app") table ≡ some bs)
    × (total bs ≡ (active_ratio [] 0 200 table).total_seconds)
total-dwell_usage_example = total-dwell_usage [] 0 200 (codes "app") table (inr refl)

active_ratio-le_example : (active_ratio (codes "a") 0 200 table).total_seconds ≤ 200 - 0
active_ratio-le_example = active_ratio-le (codes "a") 0 200 table (λ e. cc)
