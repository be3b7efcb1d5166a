-- ===== src/Server/Query.antt =====
-- The queries of internal/server/query.go on the table of heartbeats: the common table expressions
-- of `dwellCTE`, `ActiveRatio`, `DwellUsage` and `ListEvents`. A table is a list of rows; `ORDER BY`
-- keeps rows with equal keys in the order of the table, in all queries alike, which SQL leaves open.
-- Times are natural numbers, seconds since 1970.
pub mod Agreement
pub mod Totals
pub mod Bounds
use screwlogger.Base.{
  ℕ, ◌+◌, ◌-◌, min, Bool, true, false, not, ◌&&◌, ◌||◌, Option, none, some, List, [], ◌∷◌, ltb, leb,
  ◌==◌, if◌then◌else◌, is_empty, take, Text, codes, text_eq,
}
use screwlogger.Web.Wire.{Bucket, Ratio, Event}

-- A row of the table `heartbeats`, with the columns that the queries read.
pub record Heartbeat : Type 0 where
  pub device_id : Text
  pub ts : ℕ
  pub app : Text
  pub category : Text
  pub active : Bool

-- The `WHERE` clause of `rng`, with that of `deviceClause`: all devices for the empty identifier.
abbrev pub in_range : Text → ℕ → ℕ → Heartbeat → Bool
in_range device from to r =
    leb from r.ts && ltb r.ts to && (is_empty device || text_eq r.device_id device)

-- `rng`
unfoldable pub rng : Text → ℕ → ℕ → List Heartbeat → List Heartbeat
rng device from to [] = []
rng device from to (r ∷ rows) =
    if in_range device from to r then r ∷ rng device from to rows else rng device from to rows

unfoldable pub insert_row : Heartbeat → List Heartbeat → List Heartbeat
insert_row r [] = r ∷ []
insert_row r (x ∷ xs) = if leb r.ts x.ts then r ∷ x ∷ xs else x ∷ insert_row r xs

-- `ORDER BY ts`
unfoldable pub order_by_ts : List Heartbeat → List Heartbeat
unfolding insert_row
order_by_ts [] = []
order_by_ts (r ∷ rows) = insert_row r (order_by_ts rows)

-- `LEAD(ts) OVER (PARTITION BY device_id ORDER BY ts)` of a row, by its device and the rows after it
-- in time.
unfoldable pub lead : Text → List Heartbeat → Option ℕ
lead device [] = none
lead device (x ∷ xs) = if text_eq x.device_id device then some x.ts else lead device xs

-- `protocol.MaxHeartbeatGap`
abbrev pub max_heartbeat_gap : ℕ
max_heartbeat_gap = 30

abbrev pub coalesce : Option ℕ → ℕ → ℕ
coalesce none to = to
coalesce (some next) to = next

-- The column `secs` of `dwell`. The difference is not negative for the rows of `rng`.
unfoldable pub secs : Option ℕ → ℕ → ℕ → ℕ
secs next to ts =
    let raw = min (coalesce next to) to - ts in
    if ltb max_heartbeat_gap raw then max_heartbeat_gap else raw

pub record Dwell : Type 0 where
  pub app : Text
  pub category : Text
  pub active : Bool
  pub secs : ℕ

-- `paired` and `dwell`, on rows in the order of time.
unfoldable pub dwell_of : List Heartbeat → ℕ → List Dwell
unfolding lead secs
dwell_of [] to = []
dwell_of (r ∷ rest) to =
    record {
      app = r.app;
      category = r.category;
      active = r.active;
      secs = secs (lead r.device_id rest) to r.ts;
    }
    ∷ dwell_of rest to

-- `dwellCTE`
unfoldable pub dwell : Text → ℕ → ℕ → List Heartbeat → List Dwell
unfolding dwell_of order_by_ts rng
dwell device from to rows = dwell_of (order_by_ts (rng device from to rows)) to

-- `COALESCE(SUM(CASE WHEN active = 1 THEN secs END), 0)`, and with 0 for 1.
unfoldable pub seconds_in : Bool → List Dwell → ℕ
seconds_in b [] = 0
seconds_in true (d ∷ ds) = (if d.active then d.secs else 0) + seconds_in true ds
seconds_in false (d ∷ ds) = (if not d.active then d.secs else 0) + seconds_in false ds

-- `ActiveRatio`, but for the quotient `Ratio`, which the page does not read.
unfoldable pub active_ratio : Text → ℕ → ℕ → List Heartbeat → Ratio
unfolding seconds_in
active_ratio device from to rows =
    let ds = dwell device from to rows in
    record {
      active_seconds = seconds_in true ds;
      idle_seconds = seconds_in false ds;
      total_seconds = seconds_in true ds + seconds_in false ds;
    }

-- `GROUP BY`: a row adds its seconds to the bucket of its key, or begins one.
unfoldable pub add_seconds : Text → ℕ → List Bucket → List Bucket
add_seconds key n [] = record { key = key; seconds = n } ∷ []
add_seconds key n (b ∷ bs) =
    if text_eq b.key key
    then record { key = b.key; seconds = b.seconds + n } ∷ bs
    else b ∷ add_seconds key n bs

unfoldable pub group : (Dwell → Text) → List Dwell → List Bucket
unfolding add_seconds
group key [] = []
group key (d ∷ ds) = add_seconds (key d) d.secs (group key ds)

unfoldable pub insert_bucket : Bucket → List Bucket → List Bucket
insert_bucket b [] = b ∷ []
insert_bucket b (x ∷ xs) = if leb x.seconds b.seconds then b ∷ x ∷ xs else x ∷ insert_bucket b xs

-- `ORDER BY seconds DESC`
unfoldable pub order_by_seconds : List Bucket → List Bucket
unfolding insert_bucket
order_by_seconds [] = []
order_by_seconds (b ∷ bs) = insert_bucket b (order_by_seconds bs)

-- The column for `groupBy`; any other text is an error.
abbrev pub column : Text → Option (Dwell → Text)
column group_by =
    if text_eq group_by (codes "category")
    then some (λ d. d.category)
    else if text_eq group_by (codes "app")
    then some (λ d. d.app)
    else none

-- `DwellUsage`; `none` for the error.
unfoldable pub dwell_usage : Text → ℕ → ℕ → Text → List Heartbeat → Option (List Bucket)
unfolding group order_by_seconds
dwell_usage device from to group_by rows = elim (column group_by) [
  | none ↦ none
  | some key ↦ some (order_by_seconds (group key (dwell device from to rows)))
]

-- The clamping of `limit`, which is not negative where the handler calls.
abbrev pub clamp_limit : ℕ → ℕ
clamp_limit limit = if limit == 0 then 1000 else if ltb 10000 limit then 10000 else limit

-- `ListEvents`
unfoldable pub list_events : Text → ℕ → ℕ → ℕ → List Heartbeat → List Heartbeat
list_events device from to limit rows =
    take (clamp_limit limit) (order_by_ts (rng device from to rows))

-- What the page reads of an event.
abbrev pub event_of : Heartbeat → Event
event_of r = record { ts = r.ts; active = r.active }
