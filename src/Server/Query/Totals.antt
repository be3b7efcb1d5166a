-- ===== src/Server/Query/Totals.antt =====
-- The totals of the dwell queries of internal/server/query.go.
use screwlogger.Base.{
  ℕ, ◌+◌, ◌≡◌, refl, ap, ◌∙◌, ◌⊎◌, inl, inr, true, false, some, List, [], ◌∷◌, map, arith, sum,
  Text, codes, text_eq,
}
use screwlogger.Web.Wire.{Bucket}
use screwlogger.Server.Query.{
  Heartbeat, Dwell, dwell, seconds_in, active_ratio, add_seconds, group, insert_bucket,
  order_by_seconds, column, dwell_usage,
}

-- The seconds of all buckets together.
abbrev pub total : List Bucket → ℕ
total bs = sum (map (λ b. b.seconds) bs)

total-add_seconds :
    (key : Text) (n : ℕ) (bs : List Bucket) → total (add_seconds key n bs) ≡ total bs + n
unfolding add_seconds
total-add_seconds key n [] = omega arith
total-add_seconds key n (b ∷ bs) = ground (arith, total-add_seconds key n bs)

total-group :
    (key : Dwell → Text) (ds : List Dwell)
    → total (group key ds) ≡ seconds_in true ds + seconds_in false ds
unfolding group seconds_in
total-group key [] = refl
total-group key (d ∷ ds) =
    ground (arith, total-add_seconds (key d) d.secs (group key ds), total-group key ds)

total-insert_bucket :
    (b : Bucket) (bs : List Bucket) → total (insert_bucket b bs) ≡ b.seconds + total bs
unfolding insert_bucket
total-insert_bucket b [] = refl
total-insert_bucket b (x ∷ xs) = ground (arith, total-insert_bucket b xs)

total-order_by_seconds : (bs : List Bucket) → total (order_by_seconds bs) ≡ total bs
unfolding order_by_seconds
total-order_by_seconds [] = refl
total-order_by_seconds (b ∷ bs) =
    total-insert_bucket b (order_by_seconds bs)
    ∙ ap (λ n. b.seconds + n) (total-order_by_seconds bs)

abbrev HasTotal : Text → ℕ → ℕ → Text → List Heartbeat → Type 0
HasTotal device from to group_by rows =
    (bs : List Bucket) × (dwell_usage device from to group_by rows ≡ some bs)
    × (total bs ≡ (active_ratio device from to rows).total_seconds)

dwell_usage-HasTotal :
    (device : Text) (from to : ℕ) (group_by : Text) (rows : List Heartbeat) (key : Dwell → Text)
    → column group_by ≡ some key
    → HasTotal device from to group_by rows
unfolding dwell_usage active_ratio
dwell_usage-HasTotal device from to group_by rows key e =
    let ds = dwell device from to rows in
    (
      order_by_seconds (group key ds),
      rw (e, dwell_usage),
      total-order_by_seconds (group key ds) ∙ total-group key ds,
    )

-- For both groupings that the page asks for, `DwellUsage` gives buckets, and their seconds add up to
-- the total of `ActiveRatio` for the same window, whether for one device or for all.
pub total-dwell_usage :
    (device : Text) (from to : ℕ) (group_by : Text) (rows : List Heartbeat)
    → (group_by ≡ codes "category") ⊎ (group_by ≡ codes "app")
    → (bs : List Bucket) × (dwell_usage device from to group_by rows ≡ some bs)
      × (total bs ≡ (active_ratio device from to rows).total_seconds)
unfolding text_eq
total-dwell_usage device from to group_by rows (inl e) =
    dwell_usage-HasTotal device from to group_by rows (λ d. d.category) (ap column e)
total-dwell_usage device from to group_by rows (inr e) =
    dwell_usage-HasTotal device from to group_by rows (λ d. d.app) (ap column e)
