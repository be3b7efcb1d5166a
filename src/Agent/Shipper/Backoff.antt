-- ===== src/Agent/Shipper/Backoff.antt =====
-- The waits between the uploads of internal/agent/shipper.go.
use screwlogger.Base.{ℕ, ◌≤◌, Bool, arith}
use screwlogger.Agent.Shipper.{next_interval}

-- No wait is shorter than fifteen seconds or longer than five minutes.
next_interval_bounds :
    (f : Bool) (n : ℕ) → (15 ≤ (next_interval f n).0) × ((next_interval f n).0 ≤ 300)
unfolding next_interval
next_interval_bounds f n = ground arith
