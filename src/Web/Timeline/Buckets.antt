-- ===== src/Web/Timeline/Buckets.antt =====
-- What `bucketByHour` computes, against a description by events: the dwell of each hour.
use screwlogger.Base.{
  ℕ, ◌+◌, ◌≡◌, refl, ◌∙◌, Bool, true, false, not, ◌&&◌, ◌||◌, none, some, List, [], ◌∷◌, arith,
  ◌==◌, if◌then◌else◌,
}
use screwlogger.Web.Timeline.{
  false, Event, List, Bool, ℕ, hour_key, gap, next_ts, get, slot_or, add_dwell, bucket_from,
  bucket_by_hour, Slot, Hours,
}
use screwlogger.Web.Timeline.Hours.{get-add_dwell}

-- Whether an event is in the state `b`.
abbrev pub is : Bool → Bool → Bool
is true a = a
is false a = not a

-- The seconds that the events of hour `h` in state `b` count, by a filter over the events.
unfoldable pub dwell_in : Bool → ℕ → List Event → ℕ → ℕ
dwell_in b h [] to = 0
dwell_in b h (ev ∷ rest) to =
    (if hour_key ev.ts == h && is b ev.active then gap (next_ts rest to) ev.ts else 0)
    + dwell_in b h rest to

-- Whether an event falls in the hour `h`.
unfoldable pub has_hour : ℕ → List Event → Bool
has_hour h [] = false
has_hour h (ev ∷ rest) = hour_key ev.ts == h || has_hour h rest

abbrev pub slot : ℕ → ℕ → Slot
slot a i = record { active = a; idle = i }

pub dwell_in_none :
    (b : Bool) (h : ℕ) (events : List Event) (to : ℕ)
    → has_hour h events ≡ false
    → dwell_in b h events to ≡ 0
unfolding has_hour dwell_in
dwell_in_none b h [] to e = refl
dwell_in_none b h (ev ∷ rest) to e = ground (arith, dwell_in_none b h rest to)

get-bucket_from :
    (h : ℕ) (m : Hours) (events : List Event) (to : ℕ)
    → get h (bucket_from m events to) ≡ (
        if has_hour h events
        then some (
            slot
              ((slot_or (get h m)).active + dwell_in true h events to)
              ((slot_or (get h m)).idle + dwell_in false h events to))
        else get h m)
unfolding bucket_from has_hour dwell_in
get-bucket_from h m [] to = refl
get-bucket_from h m (ev ∷ rest) to =
    let k = hour_key ev.ts in
    let g = gap (next_ts rest to) ev.ts in
    ground (
      arith,
      get-bucket_from h (add_dwell k ev.active g m) rest to,
      get-add_dwell h k ev.active g m,
      dwell_in_none true h rest to,
      dwell_in_none false h rest to,
    )

-- An hour has a bucket exactly when an event falls in it, and the bucket holds the seconds that the
-- active and the idle events of the hour count.
pub get-bucket_by_hour :
    (h : ℕ) (events : List Event) (to : ℕ)
    → get h (bucket_by_hour events to) ≡ (
        if has_hour h events
        then some (slot (dwell_in true h events to) (dwell_in false h events to))
        else none)
unfolding bucket_by_hour
get-bucket_by_hour h events to = get-bucket_from h [] events to ∙ unfold get in ground arith
