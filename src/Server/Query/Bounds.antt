-- ===== src/Server/Query/Bounds.antt =====
-- How much time the dwell queries of internal/server/query.go count for one device.
use screwlogger.Base.{
  ℕ, ◌+◌, ◌-◌, ◌≤◌, ◌≢◌, inl, inr, true, false, List, [], ◌∷◌, map, arith, leb, Bool-cases, All,
  Text,
}
use screwlogger.Web.Timeline.Bounds.{Ordered, spent-le-window}
use screwlogger.Server.Query.{
  Heartbeat, rng, insert_row, order_by_ts, dwell_of, dwell, seconds_in, active_ratio, event_of,
}
use screwlogger.Server.Query.Agreement.{
  IsKept, rng-IsKept, insert_row-All, order_by_ts-All, spent-dwell_of,
}

-- Each row is no later than all that follow it.
abbrev Ascending : List Heartbeat → Type 0
Ascending [] = Unit
Ascending (x ∷ xs) = All (λ y. x.ts ≤ y.ts) xs × Ascending xs

All-le_trans :
    (a b : ℕ) (xs : List Heartbeat) → a ≤ b → All (λ y. b ≤ y.ts) xs → All (λ y. a ≤ y.ts) xs
All-le_trans a b [] h t = tt
All-le_trans a b (x ∷ xs) h (p, t) = (omega arith, All-le_trans a b xs h t)

insert_row-Ascending :
    (r : Heartbeat) (xs : List Heartbeat) → Ascending xs → Ascending (insert_row r xs)
unfolding insert_row
insert_row-Ascending r [] h = (tt, tt)
insert_row-Ascending r (x ∷ xs) (p, h) = elim (Bool-cases (leb r.ts x.ts)) [
  | inl e ↦ rw (e, insert_row) ((ground arith, All-le_trans r.ts x.ts xs (ground arith) p), (p, h))
  | inr e ↦
      rw (e, insert_row)
        (insert_row-All (λ y. x.ts ≤ y.ts) r xs (ground arith) p, insert_row-Ascending r xs h)
]

order_by_ts-Ascending : (xs : List Heartbeat) → Ascending (order_by_ts xs)
unfolding order_by_ts
order_by_ts-Ascending [] = tt
order_by_ts-Ascending (x ∷ xs) = insert_row-Ascending x (order_by_ts xs) (order_by_ts-Ascending xs)

Ascending-Ordered :
    (device : Text) (from to : ℕ) (xs : List Heartbeat)
    → Ascending xs
    → All (IsKept device from to) xs
    → Ordered (map event_of xs) to
Ascending-Ordered device from to [] a k = tt
Ascending-Ordered device from to (x ∷ []) a ((d, ge, lt), k) = (omega arith, tt)
Ascending-Ordered device from to (x ∷ y ∷ xs) ((p, q), a) (l, k) =
    (p, Ascending-Ordered device from to (y ∷ xs) a k)

seconds_in-le :
    (device : Text) (from to : ℕ) (xs : List Heartbeat)
    → Ascending xs
    → All (IsKept device from to) xs
    → seconds_in true (dwell_of xs to) + seconds_in false (dwell_of xs to) ≤ to - from
seconds_in-le device from to [] a k = unfold dwell_of seconds_in in omega arith
seconds_in-le device from to (x ∷ xs) a ((d, ge, lt), k) =
    let o = Ascending-Ordered device from to (x ∷ xs) a ((d, ge, lt), k) in
    omega (
      arith,
      spent-dwell_of true device from to (x ∷ xs) ((d, ge, lt), k),
      spent-dwell_of false device from to (x ∷ xs) ((d, ge, lt), k),
      spent-le-window (event_of x) (map event_of xs) to o,
    )

-- One device cannot have been used for longer than the window: its total is at most the window's
-- length.
pub active_ratio-le :
    (device : Text) (from to : ℕ) (rows : List Heartbeat)
    → device ≢ []
    → (active_ratio device from to rows).total_seconds ≤ to - from
unfolding active_ratio dwell
active_ratio-le device from to rows ne =
    let sorted = order_by_ts (rng device from to rows) in
    let kept =
      order_by_ts-All (IsKept device from to) (rng device from to rows)
        (rng-IsKept device from to rows ne) in
    seconds_in-le device from to sorted (order_by_ts-Ascending (rng device from to rows)) kept
