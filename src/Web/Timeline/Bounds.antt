-- ===== src/Web/Timeline/Bounds.antt =====
-- How much time the timeline shows in all, and how much an hour can hold.
use screwlogger.Base.{
  ℕ, ◌+◌, ◌-◌, ◌*◌, ◌≤◌, ◌<◌, min, ◌≡◌, refl, ap, ap₂, ◌∙◌, inl, inr, Bool, true, false, ◌&&◌, some,
  List, [], ◌∷◌, map, arith, ltb, ◌==◌, if◌then◌else◌, Bool-cases, ==_refl, length, sum,
}
use screwlogger.Web.Wire.{Event}
use screwlogger.Web.Timeline.{
  bucket_by_hour, get, Slot, hour_key, gap, next_ts, max_gap, hourly_series,
}
use screwlogger.Web.Timeline.Buckets.{get-bucket_by_hour, is, dwell_in, has_hour}
use screwlogger.Web.Timeline.Sorted.{
  has, Above, Increasing, hours-Increasing, has-hours, hourly_series_lem,
}

-- A gap in numbers: the time up to the next event, none if that lies before, and at most thirty.
pub gap_lem : (next ts : ℕ) → gap next ts ≡ min (next - ts) max_gap
unfolding gap
gap_lem next ts = ground arith

-- The seconds that all events in state `b` count.
unfoldable pub spent : Bool → List Event → ℕ → ℕ
spent b [] to = 0
spent b (ev ∷ rest) to =
    (if is b ev.active then gap (next_ts rest to) ev.ts else 0) + spent b rest to

-- One hour's share of one event.
abbrev share : ℕ → Bool → ℕ → ℕ → ℕ
share k c g h = if k == h && c then g else 0

sum-share_none :
    (k : ℕ) (c : Bool) (g : ℕ) (hs : List ℕ) → has k hs ≡ false → sum (map (share k c g) hs) ≡ 0
unfolding has
sum-share_none k c g [] e = refl
sum-share_none k c g (h ∷ hs) e = ground (arith, sum-share_none k c g hs)

has-Above : (k : ℕ) (hs : List ℕ) → Above k hs → has k hs ≡ false
unfolding has
has-Above k [] t = refl
has-Above k (h ∷ hs) t = ground (arith, has-Above k hs)

sum-share :
    (k : ℕ) (c : Bool) (g : ℕ) (hs : List ℕ)
    → Increasing hs
    → has k hs ≡ true
    → sum (map (share k c g) hs) ≡ (if c then g else 0)
unfolding has
sum-share k c g [] i e = cc
sum-share k c g (h ∷ hs) i e =
    ground (arith, sum-share k c g hs, sum-share_none k c g hs, has-Above h hs)

sum-map-add :
    (f g : ℕ → ℕ) (hs : List ℕ) → sum (map (λ h. f h + g h) hs) ≡ sum (map f hs) + sum (map g hs)
sum-map-add f g [] = refl
sum-map-add f g (h ∷ hs) = omega (arith, sum-map-add f g hs)

sum-zero : (hs : List ℕ) → sum (map (λ h. 0) hs) ≡ 0
sum-zero [] = refl
sum-zero (h ∷ hs) = omega (arith, sum-zero hs)

sum-dwell_in :
    (b : Bool) (events : List Event) (to : ℕ) (hs : List ℕ)
    → Increasing hs
    → ((h : ℕ) → has_hour h events ≡ true → has h hs ≡ true)
    → sum (map (λ h. dwell_in b h events to) hs) ≡ spent b events to
unfolding dwell_in spent has_hour
sum-dwell_in b [] to hs i all = sum-zero hs
sum-dwell_in b (ev ∷ rest) to hs i all =
    let k = hour_key ev.ts in
    let c = is b ev.active in
    let g = gap (next_ts rest to) ev.ts in
    sum-map-add (share k c g) (λ h. dwell_in b h rest to) hs
    ∙ ap₂ ◌+◌ (sum-share k c g hs i (all k (ground (arith, ==_refl k))))
        (sum-dwell_in b rest to hs i (λ h e. all h (ground arith)))

-- Nothing is lost or counted twice: over all hours the two series add up to the seconds that the
-- active events, and the idle ones, count.
pub hourly_series-sum :
    (events : List Event) (to : ℕ)
    → (sum (hourly_series events to).active ≡ spent true events to)
      × (sum (hourly_series events to).idle ≡ spent false events to)
hourly_series-sum events to =
    let i = hours-Increasing events to in
    let all = λ (h : ℕ) (e : has_hour h events ≡ true). has-hours h events to ∙ e in
    let (_, _, a, d) = hourly_series_lem events to in
    (
      ap sum a ∙ sum-dwell_in true events to _ i all,
      ap sum d ∙ sum-dwell_in false events to _ i all,
    )

-- The events ascend in time and end by `to`.
abbrev pub Ordered : List Event → ℕ → Type 0
Ordered [] to = Unit
Ordered (ev ∷ rest) to = (ev.ts ≤ next_ts rest to) × Ordered rest to

pub spent-le-window :
    (ev : Event) (rest : List Event) (to : ℕ)
    → Ordered (ev ∷ rest) to
    → spent true (ev ∷ rest) to + spent false (ev ∷ rest) to + ev.ts ≤ to
unfolding spent
spent-le-window ev [] to o = ground (arith, gap_lem to ev.ts)
spent-le-window ev (next ∷ rest) to (h, o) =
    ground (arith, gap_lem next.ts ev.ts, spent-le-window next rest to o)

spent-le-gaps :
    (events : List Event) (to : ℕ)
    → spent true events to + spent false events to ≤ max_gap * length events
unfolding spent
spent-le-gaps [] to = omega arith
spent-le-gaps (ev ∷ rest) to =
    ground (arith, gap_lem (next_ts rest to) ev.ts, spent-le-gaps rest to)

-- The timeline makes no time up: for events in order it shows at most the time from the first event
-- to the end of the window, and at most thirty seconds for each event.
pub hourly_series-le :
    (ev : Event) (rest : List Event) (to : ℕ)
    → Ordered (ev ∷ rest) to
    → (sum (hourly_series (ev ∷ rest) to).active + sum (hourly_series (ev ∷ rest) to).idle
        ≤ to - ev.ts)
      × (sum (hourly_series (ev ∷ rest) to).active + sum (hourly_series (ev ∷ rest) to).idle
          ≤ max_gap * length (ev ∷ rest))
hourly_series-le ev rest to o =
    let (a, d) = hourly_series-sum (ev ∷ rest) to in
    rw (a, d) (omega (arith, spent-le-window ev rest to o), spent-le-gaps (ev ∷ rest) to)

hour_key_bounds : (ts q : ℕ) → hour_key ts ≡ q * 3600 → (q * 3600 ≤ ts) × (ts < q * 3600 + 3600)
unfolding hour_key
hour_key_bounds ts q e = omega arith

hour_key_of_bounds : (ts q : ℕ) → q * 3600 ≤ ts → ts < q * 3600 + 3600 → hour_key ts ≡ q * 3600
unfolding hour_key
hour_key_of_bounds ts q l u = omega arith

-- Both sides of an hour together.
abbrev pub in_hour : ℕ → List Event → ℕ → ℕ
in_hour h events to = dwell_in true h events to + dwell_in false h events to

in_hour_past :
    (q : ℕ) (events : List Event) (to : ℕ) (ev : Event)
    → Ordered (ev ∷ events) to
    → q * 3600 + 3600 ≤ ev.ts
    → in_hour (q * 3600) (ev ∷ events) to ≡ 0
unfolding dwell_in
in_hour_past q [] to ev o h = ground (arith, hour_key_bounds ev.ts q)
in_hour_past q (next ∷ rest) to ev (p, o) h =
    ground (arith, hour_key_bounds ev.ts q, in_hour_past q rest to next o)

in_hour_room :
    (q : ℕ) (events : List Event) (to : ℕ) (ev : Event)
    → Ordered (ev ∷ events) to
    → ev.ts < q * 3600 + 3600
    → (in_hour (q * 3600) (ev ∷ events) to + ev.ts < q * 3600 + 3600 + max_gap)
      × (in_hour (q * 3600) (ev ∷ events) to < 3600 + max_gap)
unfolding dwell_in
in_hour_room q [] to ev o h = ground (arith, gap_lem to ev.ts, hour_key_bounds ev.ts q)
in_hour_room q (next ∷ rest) to ev (p, o) h = ground (
  arith,
  gap_lem next.ts ev.ts,
  hour_key_bounds ev.ts q,
  in_hour_past q rest to next o,
  in_hour_room q rest to next o,
)

-- The events of one hour of a series in order lie within it, and only the last one's gap can run over
-- its end.
in_hour-lt :
    (q : ℕ) (events : List Event) (to : ℕ)
    → Ordered events to
    → in_hour (q * 3600) events to < 3600 + max_gap
in_hour-lt q [] to o = unfold dwell_in in omega arith
in_hour-lt q (ev ∷ rest) to o = elim (Bool-cases (ltb ev.ts (q * 3600 + 3600))) [
  | inl early ↦ (in_hour_room q rest to ev o (ground arith)).1
  | inr late ↦ ground (arith, in_hour_past q rest to ev o)
]

-- For events in order the bucket of an hour holds less than 3600 + 30 seconds, active and idle ones
-- together.
pub get-bucket_by_hour-lt :
    (q : ℕ) (events : List Event) (to : ℕ) (s : Slot)
    → Ordered events to
    → get (q * 3600) (bucket_by_hour events to) ≡ some s
    → s.active + s.idle < 3600 + max_gap
get-bucket_by_hour-lt q events to s o e =
    ground (arith, get-bucket_by_hour (q * 3600) events to, in_hour-lt q events to o, e)
