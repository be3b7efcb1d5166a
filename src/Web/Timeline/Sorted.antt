-- ===== src/Web/Timeline/Sorted.antt =====
-- The hours of the timeline chart and its two series.
use screwlogger.Base.{
  ℕ, ◌<◌, ◌≡◌, refl, ap, ◌∙◌, inl, inr, Bool, true, false, ◌||◌, Option, none, some, List, [], ◌∷◌,
  map, arith, ◌==◌, Option-cases,
}
use mathlib.Core.Path.{fun_ext}
use screwlogger.Web.Wire.{Event}
use screwlogger.Web.Timeline.{
  hour_key, gap, next_ts, get, slot_or, add_dwell, bucket_from, bucket_by_hour, Slot, Hours, put,
  bump, keys, empty_slot, insert, sort, hourly_series, ensure,
}
use screwlogger.Web.Timeline.Buckets.{dwell_in, has_hour, get-bucket_by_hour, dwell_in_none}

unfoldable pub has : ℕ → List ℕ → Bool
has h [] = false
has h (k ∷ ks) = k == h || has h ks

abbrev pub Above : ℕ → List ℕ → Type 0
Above k [] = Unit
Above k (j ∷ js) = (k < j) × Above k js

-- Each hour is below all that follow it.
abbrev pub Increasing : List ℕ → Type 0
Increasing [] = Unit
Increasing (k ∷ ks) = Above k ks × Increasing ks

has-insert : (h k : ℕ) (ks : List ℕ) → has h (insert k ks) ≡ (k == h || has h ks)
unfolding has insert
has-insert h k [] = refl
has-insert h k (j ∷ js) = ground (arith, has-insert h k js)

has-sort : (h : ℕ) (ks : List ℕ) → has h (sort ks) ≡ has h ks
unfolding has sort
has-sort h [] = refl
has-sort h (k ∷ ks) = has-insert h k (sort ks) ∙ rw (has-sort h ks)

Above-trans : (a b : ℕ) (ks : List ℕ) → a < b → Above b ks → Above a ks
Above-trans a b [] h t = tt
Above-trans a b (k ∷ ks) h (p, t) = (omega arith, Above-trans a b ks h t)

Above-insert : (a k : ℕ) (ks : List ℕ) → a < k → Above a ks → Above a (insert k ks)
unfolding insert
Above-insert a k [] h t = (h, tt)
Above-insert a k (j ∷ js) h t = ground (arith, Above-insert a k js)

insert-Increasing :
    (k : ℕ) (ks : List ℕ) → has k ks ≡ false → Increasing ks → Increasing (insert k ks)
unfolding insert has
insert-Increasing k [] h i = (tt, tt)
insert-Increasing k (j ∷ js) h i =
    ground (arith, insert-Increasing k js, Above-trans k j js, Above-insert j k js)

-- Each key stands once.
abbrev Distinct : List ℕ → Type 0
Distinct [] = Unit
Distinct (k ∷ ks) = (has k ks ≡ false) × Distinct ks

sort-Increasing : (ks : List ℕ) → Distinct ks → Increasing (sort ks)
unfolding sort
sort-Increasing [] d = tt
sort-Increasing (k ∷ ks) (f, d) =
    insert-Increasing k (sort ks) (has-sort k ks ∙ f) (sort-Increasing ks d)

is_some : Option Slot → Bool
is_some none = false
is_some (some s) = true

has-keys : (h : ℕ) (m : Hours) → has h (keys m) ≡ is_some (get h m)
unfolding has keys get is_some
has-keys h [] = refl
has-keys h ((k, s) ∷ m) = ground (arith, has-keys h m)

has-keys-put :
    (h k : ℕ) (s : Slot) (m : Hours) → has h (keys (put k s m)) ≡ (k == h || has h (keys m))
unfolding has keys put
has-keys-put h k s [] = refl
has-keys-put h k s ((j, t) ∷ m) = ground (arith, has-keys-put h k s m)

keys-put-Distinct : (k : ℕ) (s : Slot) (m : Hours) → Distinct (keys m) → Distinct (keys (put k s m))
unfolding put keys has
keys-put-Distinct k s [] d = (refl, tt)
keys-put-Distinct k s ((j, t) ∷ m) d = ground (arith, keys-put-Distinct k s m, has-keys-put j k s m)

keys-ensure-Distinct : (k : ℕ) (m : Hours) → Distinct (keys m) → Distinct (keys (ensure k m))
unfolding ensure
keys-ensure-Distinct k m d = elim (Option-cases (get k m)) [
  | inl e ↦ rw (e, ensure) (keys-put-Distinct k empty_slot m d)
  | inr (s, e) ↦ rw (e, ensure) d
]

keys-add_dwell-Distinct :
    (k : ℕ) (b : Bool) (g : ℕ) (m : Hours) → Distinct (keys m) → Distinct (keys (add_dwell k b g m))
unfolding add_dwell
keys-add_dwell-Distinct k b g m d = elim (Option-cases (get k (ensure k m))) [
  | inl e ↦ rw (e, add_dwell) (keys-ensure-Distinct k m d)
  | inr (s, e) ↦
      rw (e, add_dwell) (keys-put-Distinct k (bump b g s) (ensure k m) (keys-ensure-Distinct k m d))
]

keys-bucket_from-Distinct :
    (m : Hours) (events : List Event) (to : ℕ)
    → Distinct (keys m)
    → Distinct (keys (bucket_from m events to))
unfolding bucket_from
keys-bucket_from-Distinct m [] to d = d
keys-bucket_from-Distinct m (ev ∷ rest) to d =
    let k = hour_key ev.ts in
    let g = gap (next_ts rest to) ev.ts in
    keys-bucket_from-Distinct (add_dwell k ev.active g m) rest to
      (keys-add_dwell-Distinct k ev.active g m d)

pub hours-Increasing : (events : List Event) (to : ℕ) → Increasing (hourly_series events to).hours
unfolding hourly_series bucket_by_hour
hours-Increasing events to =
    sort-Increasing _ (keys-bucket_from-Distinct [] events to (unfold keys in tt))

pub has-hours :
    (h : ℕ) (events : List Event) (to : ℕ)
    → has h (hourly_series events to).hours ≡ has_hour h events
unfolding hourly_series is_some
has-hours h events to =
    has-sort h _
    ∙ has-keys h (bucket_by_hour events to)
    ∙ rw (get-bucket_by_hour h events to) (ground arith)

active-at :
    (events : List Event) (to h : ℕ)
    → (slot_or (get h (bucket_by_hour events to))).active ≡ dwell_in true h events to
active-at events to h =
    ground (arith, get-bucket_by_hour h events to, dwell_in_none true h events to)

idle-at :
    (events : List Event) (to h : ℕ)
    → (slot_or (get h (bucket_by_hour events to))).idle ≡ dwell_in false h events to
idle-at events to h =
    ground (arith, get-bucket_by_hour h events to, dwell_in_none false h events to)

-- The hours on the axis increase strictly, and an hour is among them exactly when an event falls in
-- it; the two series give, hour by hour, the seconds of the active and of the idle events of the hour.
pub hourly_series_lem :
    (events : List Event) (to : ℕ)
    → Increasing (hourly_series events to).hours
      × ((h : ℕ) → has h (hourly_series events to).hours ≡ has_hour h events)
      × ((hourly_series events to).active
          ≡ map (λ h. dwell_in true h events to) (hourly_series events to).hours)
      × ((hourly_series events to).idle
          ≡ map (λ h. dwell_in false h events to) (hourly_series events to).hours)
unfolding hourly_series
hourly_series_lem events to = (
  hours-Increasing events to,
  λ h. has-hours h events to,
  ap (λ f. map f (sort (keys (bucket_by_hour events to)))) (fun_ext (active-at events to)),
  ap (λ f. map f (sort (keys (bucket_by_hour events to)))) (fun_ext (idle-at events to)),
)
