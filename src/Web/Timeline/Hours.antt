-- ===== src/Web/Timeline/Hours.antt =====
-- The map of hour buckets: what one step of the loop changes.
use screwlogger.Base.{
  ℕ, [], ◌∷◌, some, Bool, if◌then◌else◌, ◌==◌, ◌≡◌, refl, arith, Option-cases, inl, inr,
}
use screwlogger.Web.Timeline.{empty_slot, ensure, Slot, Hours, get, put, bump, add_dwell, slot_or}

pub get-put :
    (h k : ℕ) (s : Slot) (m : Hours) → get h (put k s m) ≡ (if k == h then some s else get h m)
unfolding get put
get-put h k s [] = refl
get-put h k s ((j, t) ∷ m) = ground (arith, get-put h k s m)

pub get-ensure :
    (h k : ℕ) (m : Hours)
    → get h (ensure k m) ≡ (if k == h then some (slot_or (get k m)) else get h m)
unfolding ensure
get-ensure h k m = elim (Option-cases (get k m)) [
  | inl e ↦ rw (e, ensure) (get-put h k empty_slot m)
  | inr (s, e) ↦ rw (e, ensure) (ground arith)
]

-- A step adds the gap to one side of the hour's bucket, and leaves the other hours alone.
pub get-add_dwell :
    (h k : ℕ) (b : Bool) (g : ℕ) (m : Hours)
    → get h (add_dwell k b g m) ≡ (if k == h then some (bump b g (slot_or (get k m))) else get h m)
unfolding add_dwell
get-add_dwell h k b g m = ground (
  arith,
  get-ensure k k m,
  get-ensure h k m,
  get-put h k (bump b g (slot_or (get k m))) (ensure k m),
)
