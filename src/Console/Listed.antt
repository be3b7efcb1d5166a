-- ===== src/Console/Listed.antt =====
-- The rows of the answer of `handleDevices` of internal/server/query_api.go are those of the table of
-- devices.
use screwlogger.Base.{
  ℕ, zero, suc, ◌≡◌, refl, sym, ap, ◌⊎◌, inl, inr, some, List, [], ◌∷◌, map, arith, leb, Bool-cases,
  get_elem?, text_eq_iff, text_eq_refl,
}
use screwlogger.Server.Store.{Device, by_id}
use screwlogger.Server.Devices.{list_devices, insert_newest}
use screwlogger.Server.Site.Keys.{IsKey}
use screwlogger.Server.Site.Columns.{device_ids, occurs-by_id}

get_elem?-insert_newest :
    (n : ℕ) (y d : Device) (xs : List Device)
    → get_elem? (insert_newest d xs) n ≡ some y
    → (y ≡ d) ⊎ ((m : ℕ) × (get_elem? xs m ≡ some y))
unfolding insert_newest
get_elem?-insert_newest zero y d [] e = inl (ground (arith, e))
get_elem?-insert_newest (suc n) y d [] e = absurd (ground (arith, e))
get_elem?-insert_newest zero y d (x ∷ xs) e = elim (Bool-cases (leb x.enrolled_at d.enrolled_at)) [
  | inl l ↦ inl (ground (arith, e, l))
  | inr l ↦ inr (0, ground (arith, e, l))
]
get_elem?-insert_newest (suc n) y d (x ∷ xs) e =
    elim (Bool-cases (leb x.enrolled_at d.enrolled_at)) [
      | inl l ↦ inr (n, ground (arith, e, l))
      | inr l ↦ elim (get_elem?-insert_newest n y d xs (ground (arith, e, l))) [
        | inl same ↦ inl same
        | inr (k, found) ↦ inr (suc k, found)
      ]
    ]

get_elem?-list_devices :
    (n : ℕ) (y : Device) (ds : List Device)
    → get_elem? (list_devices ds) n ≡ some y
    → (m : ℕ) × (get_elem? ds m ≡ some y)
unfolding list_devices
get_elem?-list_devices n y [] e = absurd (ground (arith, e))
get_elem?-list_devices n y (d ∷ ds) e = elim (get_elem?-insert_newest n y d (list_devices ds) e) [
  | inl same ↦ (0, ap some (sym same))
  | inr (k, found) ↦ let (m, f) = get_elem?-list_devices k y ds found in (suc m, f)
]

by_id-get_elem? :
    (m : ℕ) (y : Device) (ds : List Device)
    → IsKey (device_ids ds)
    → get_elem? ds m ≡ some y
    → by_id y.id ds ≡ some y
unfolding by_id
by_id-get_elem? m y [] k e = absurd (ground (arith, e))
by_id-get_elem? zero y (d ∷ ds) k e = ground (arith, e, text_eq_refl y.id)
by_id-get_elem? (suc m) y (d ∷ ds) (new, k) e =
    ground (arith, by_id-get_elem? m y ds k e, occurs-by_id d.id ds, new, text_eq_iff d.id y.id)

get_elem?-map :
    {A B : Type 0} (f : A → B) (n : ℕ) (y : B) (xs : List A)
    → get_elem? (map f xs) n ≡ some y
    → (x : A) × (y ≡ f x) × (get_elem? xs n ≡ some x)
get_elem?-map f n y [] e = absurd (ground (arith, e))
get_elem?-map f zero y (x ∷ xs) e = (x, ground (arith, e), refl)
get_elem?-map f (suc n) y (x ∷ xs) e = get_elem?-map f n y xs e

-- A row of the listed devices is one of a device that is found by its identifier.
pub by_id-listed :
    {B : Type 0} (f : Device → B) (n : ℕ) (y : B) (ds : List Device)
    → IsKey (device_ids ds)
    → get_elem? (map f (list_devices ds)) n ≡ some y
    → (d : Device) × (y ≡ f d) × (by_id d.id ds ≡ some d)
by_id-listed f n y ds k e =
    let (d, same, listed) = get_elem?-map f n y (list_devices ds) e in
    let (m, found) = get_elem?-list_devices n d ds listed in
    (d, same, by_id-get_elem? m d ds k found)
