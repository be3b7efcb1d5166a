-- ===== src/Server/Store/Delete.antt =====
-- What `DeleteDevice` of internal/server/store.go removes, and when.
use screwlogger.Base.{
  ℕ, ◌≡◌, refl, ap, ◌∙◌, ◌≢◌, inl, inr, Option, none, some, List, [], ◌∷◌, arith, if◌then◌else◌,
  Option-cases, Text, text_eq, text_eq_iff,
}
use screwlogger.Server.Store.{
  Device, Store, Beat, ok, by_id, without_beats, without_device, delete_found, deleted,
  delete_device,
}

-- The heartbeats of a device.
unfoldable pub beats_of : Text → List Beat → List Beat
beats_of id [] = []
beats_of id (x ∷ xs) = if text_eq x.device_id id then x ∷ beats_of id xs else beats_of id xs

beats_of-without_beats : (id : Text) (xs : List Beat) → beats_of id (without_beats id xs) ≡ []
unfolding beats_of without_beats
beats_of-without_beats id [] = refl
beats_of-without_beats id (x ∷ xs) = ground (arith, beats_of-without_beats id xs)

beats_of-without_beats_ne :
    (id other : Text) (xs : List Beat)
    → id ≢ other
    → beats_of other (without_beats id xs) ≡ beats_of other xs
unfolding beats_of without_beats
beats_of-without_beats_ne id other [] ne = refl
beats_of-without_beats_ne id other (x ∷ xs) ne = ground (
  arith,
  beats_of-without_beats_ne id other xs ne,
  text_eq_iff x.device_id id,
  text_eq_iff x.device_id other,
)

pub by_id-without_device : (id : Text) (ds : List Device) → by_id id (without_device id ds) ≡ none
unfolding by_id without_device
by_id-without_device id [] = refl
by_id-without_device id (d ∷ ds) = ground (arith, by_id-without_device id ds)

pub by_id-without_device_ne :
    (id other : Text) (ds : List Device)
    → id ≢ other
    → by_id other (without_device id ds) ≡ by_id other ds
unfolding by_id without_device
by_id-without_device_ne id other [] ne = refl
by_id-without_device_ne id other (d ∷ ds) ne =
    ground
      (arith, by_id-without_device_ne id other ds ne, text_eq_iff d.id id, text_eq_iff d.id other)

pub delete_found-ok :
    (id : Text) (o : Option Device) (s t : Store)
    → delete_found id o s ≡ ok t
    → ((d : Device) × (at : ℕ) × (o ≡ some d) × (d.revoked_at ≡ some at)) × (t ≡ deleted id s)
delete_found-ok id none s t e = cc
delete_found-ok id (some d) s t e = elim (Option-cases d.revoked_at) [
  | inl f ↦ ground (arith, e, f)
  | inr (at, f) ↦ ((d, at, refl, f), ground (arith, e, f))
]

-- A deletion that succeeds is one of a device that has been revoked. Afterwards neither the device nor
-- a heartbeat of it is stored, and every other device is, with all of its heartbeats, as before.
pub delete_device-ok :
    (id : Text) (s t : Store)
    → delete_device id s ≡ ok t
    → ((d : Device) × (at : ℕ) × (by_id id s.devices ≡ some d) × (d.revoked_at ≡ some at))
      × (by_id id t.devices ≡ none)
      × (beats_of id t.heartbeats ≡ [])
      × ((other : Text)
          → id ≢ other
          → (by_id other t.devices ≡ by_id other s.devices)
            × (beats_of other t.heartbeats ≡ beats_of other s.heartbeats))
unfolding delete_device
delete_device-ok id s t e =
    let (found, f) = delete_found-ok id (by_id id s.devices) s t e in
    (
      found,
      ap (λ u. by_id id u.devices) f ∙ by_id-without_device id s.devices,
      ap (λ u. beats_of id u.heartbeats) f ∙ beats_of-without_beats id s.heartbeats,
      λ other ne. (
        ap (λ u. by_id other u.devices) f ∙ by_id-without_device_ne id other s.devices ne,
        ap (λ u. beats_of other u.heartbeats) f
            ∙ beats_of-without_beats_ne id other s.heartbeats ne,
      ),
    )
