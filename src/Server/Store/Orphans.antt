-- ===== src/Server/Store/Orphans.antt =====
-- The reference of `heartbeats` to `devices` in internal/server/store.go.
use screwlogger.Base.{
  ℕ, ◌≡◌, refl, sym, ap, ◌∙◌, inl, inr, false, some, List, [], ◌∷◌, ◌++◌, map, arith, Bool-cases,
  Option-cases, All, All-append, Text, text_eq, text_eq_iff,
}
use screwlogger.Server.Store.{
  Device, Store, Beat, Sent, ok, has_beat, by_id, is_missing, beat_of, insert_or_ignore,
  insert_heartbeats, update, revoke_device, rename_device, without_beats, without_device,
  delete_device,
}
use mathlib.Core.Path.{subst}
use screwlogger.Server.Store.Insert.{insert_heartbeats_done}
use screwlogger.Server.Store.Delete.{by_id-without_device_ne, delete_found-ok}

-- Every heartbeat is one of a stored device.
abbrev pub NoOrphans : Store → Type 0
NoOrphans s = All (λ x. is_missing (by_id x.device_id s.devices) ≡ false) s.heartbeats

-- A change of rows that keeps the identifier of a device.
pub is_missing-update :
    (id other : Text) (f : Device → Device) (ds : List Device)
    → ((d : Device) → (f d).id ≡ d.id)
    → is_missing (by_id other (update id f ds)) ≡ is_missing (by_id other ds)
unfolding by_id update
is_missing-update id other f [] same = refl
is_missing-update id other f (d ∷ ds) same =
    ground (arith, is_missing-update id other f ds same, same d)

pub All-is_missing :
    (ds es : List Device) (xs : List Beat)
    → ((id : Text) → is_missing (by_id id es) ≡ is_missing (by_id id ds))
    → All (λ x. is_missing (by_id x.device_id ds) ≡ false) xs
    → All (λ x. is_missing (by_id x.device_id es) ≡ false) xs
All-is_missing ds es [] same h = tt
All-is_missing ds es (x ∷ xs) same (p, h) = (same x.device_id ∙ p, All-is_missing ds es xs same h)

pub revoke_device-NoOrphans :
    (now : ℕ) (id : Text) (s : Store) → NoOrphans s → NoOrphans (revoke_device now id s)
unfolding revoke_device
revoke_device-NoOrphans now id s h =
    All-is_missing s.devices _ s.heartbeats
      (λ other.
        is_missing-update id other (λ d. record d { revoked_at = some now }) s.devices (λ d. refl))
      h

All-without_beats :
    (id : Text) (ds : List Device) (xs : List Beat)
    → All (λ x. is_missing (by_id x.device_id ds) ≡ false) xs
    → All (λ x. is_missing (by_id x.device_id (without_device id ds)) ≡ false) (without_beats id xs)
unfolding without_beats
All-without_beats id ds [] h = tt
All-without_beats id ds (x ∷ xs) (p, h) = elim (Bool-cases (text_eq x.device_id id)) [
  | inl e ↦ rw (e, without_beats) (All-without_beats id ds xs h)
  | inr e ↦
      rw (e, without_beats)
        (
          ap is_missing (
                by_id-without_device_ne id x.device_id ds
                  (ground (arith, text_eq_iff x.device_id id)))
              ∙ p,
          All-without_beats id ds xs h,
        )
]

-- Deleting a device leaves no heartbeat without its device.
pub delete_device-NoOrphans :
    (id : Text) (s t : Store) → delete_device id s ≡ ok t → NoOrphans s → NoOrphans t
unfolding delete_device
delete_device-NoOrphans id s t e h =
    subst NoOrphans (sym (delete_found-ok id (by_id id s.devices) s t e).1)
      (All-without_beats id s.devices s.heartbeats h)

inserted-NoOrphans :
    (device : Text) (sent_at now : ℕ) (hbs : List Sent) (ds : List Device) (table : List Beat)
    → is_missing (by_id device ds) ≡ false
    → All (λ x. is_missing (by_id x.device_id ds) ≡ false) table
    → All
        (λ x. is_missing (by_id x.device_id ds) ≡ false)
        (insert_or_ignore (map (beat_of device sent_at now) hbs) table).1
unfolding insert_or_ignore
inserted-NoOrphans device sent_at now [] ds table k h = h
inserted-NoOrphans device sent_at now (x ∷ hbs) ds table k h =
    elim (Bool-cases (has_beat x.id table)) [
      | inl e ↦ rw (e, insert_or_ignore) (inserted-NoOrphans device sent_at now hbs ds table k h)
      | inr e ↦
          rw (e, insert_or_ignore)
            (inserted-NoOrphans device sent_at now hbs ds
              (table ++ beat_of device sent_at now x ∷ []) k
              (All-append (λ y. is_missing (by_id y.device_id ds) ≡ false) table
                (beat_of device sent_at now x ∷ []) h (k, tt)))
    ]

insert_or_ignore_zero :
    (xs table : List Beat)
    → (insert_or_ignore xs table).0 ≡ 0
    → (insert_or_ignore xs table).1 ≡ table
unfolding insert_or_ignore
insert_or_ignore_zero [] table e = refl
insert_or_ignore_zero (x ∷ xs) table e = ground (arith, insert_or_ignore_zero xs table, e)

-- The heartbeats of a stored batch refer to devices that were stored before.
insert_heartbeats-refs :
    (now sent_at : ℕ) (device : Text) (hbs : List Sent) (s t : Store) (n : ℕ)
    → insert_heartbeats now device sent_at hbs s ≡ ok (n, t)
    → NoOrphans s
    → All
        (λ x. is_missing (by_id x.device_id s.devices) ≡ false)
        (insert_or_ignore (map (beat_of device sent_at now) hbs) s.heartbeats).1
unfolding insert_heartbeats
insert_heartbeats-refs now sent_at device hbs s t n e h =
    let xs = map (beat_of device sent_at now) hbs in
    elim (Bool-cases (is_missing (by_id device s.devices))) [
      | inl gone ↦
          subst (All (λ x. is_missing (by_id x.device_id s.devices) ≡ false))
            (sym (insert_or_ignore_zero xs s.heartbeats (ground (arith, e, gone)))) h
      | inr here ↦ inserted-NoOrphans device sent_at now hbs s.devices s.heartbeats here h
    ]

pub insert_heartbeats-devices :
    (now sent_at : ℕ) (device : Text) (hbs : List Sent) (s t : Store) (n : ℕ)
    → insert_heartbeats now device sent_at hbs s ≡ ok (n, t)
    → t.devices ≡ update device (λ d. record d { last_seen = some now }) s.devices
unfolding insert_heartbeats
insert_heartbeats-devices now sent_at device hbs s t n e = ground (arith, e)

pub insert_heartbeats-NoOrphans :
    (now sent_at : ℕ) (device : Text) (hbs : List Sent) (s t : Store) (n : ℕ)
    → insert_heartbeats now device sent_at hbs s ≡ ok (n, t)
    → NoOrphans s
    → NoOrphans t
insert_heartbeats-NoOrphans now sent_at device hbs s t n e h =
    let same = λ (other : Text).
      is_missing-update device other (λ d. record d { last_seen = some now }) s.devices
        (λ d. refl) in
    All-is_missing s.devices t.devices t.heartbeats
      (λ other.
        ap (λ ds. is_missing (by_id other ds))
          (insert_heartbeats-devices now sent_at device hbs s t n e)
        ∙ same other)
      (subst (All (λ x. is_missing (by_id x.device_id s.devices) ≡ false))
        (sym (insert_heartbeats_done now sent_at device hbs s n t e).1)
        (insert_heartbeats-refs now sent_at device hbs s t n e h))

pub renamed_store :
    (id name : Text) (s t : Store)
    → rename_device id name s ≡ ok t
    → t ≡ record s { devices = update id (λ d. record d { name = name }) s.devices }
unfolding rename_device
renamed_store id name s t e = elim (Option-cases (by_id id s.devices)) [
  | inl f ↦ ground (arith, e, f)
  | inr (d, f) ↦ ground (arith, e, f)
]

pub rename_device-NoOrphans :
    (id name : Text) (s t : Store) → rename_device id name s ≡ ok t → NoOrphans s → NoOrphans t
rename_device-NoOrphans id name s t e h = subst NoOrphans (sym (renamed_store id name s t e)) (
    All-is_missing s.devices _ s.heartbeats
      (λ other. is_missing-update id other (λ d. record d { name = name }) s.devices (λ d. refl)) h)

-- A change of the store by one of its methods on devices and heartbeats that are there.
data Change (s : Store) : Store → Type 0 where
  inserted :
      (now sent_at n : ℕ) (device : Text) (hbs : List Sent) (t : Store)
      → insert_heartbeats now device sent_at hbs s ≡ ok (n, t)
      → Change s t
  revoking : (now : ℕ) (id : Text) → Change s (revoke_device now id s)
  renamed : (id name : Text) (t : Store) → rename_device id name s ≡ ok t → Change s t
  removed : (id : Text) (t : Store) → delete_device id s ≡ ok t → Change s t

-- Insertion, revocation, renaming and deletion keep the references intact: if every heartbeat is one
-- of a stored device, it is so afterwards.
Change-NoOrphans : (s t : Store) → Change s t → NoOrphans s → NoOrphans t
Change-NoOrphans s t (inserted now sent_at n device hbs u e) h =
    insert_heartbeats-NoOrphans now sent_at device hbs s u n e h
Change-NoOrphans s t (revoking now id) h = revoke_device-NoOrphans now id s h
Change-NoOrphans s t (renamed id name u e) h = rename_device-NoOrphans id name s u e h
Change-NoOrphans s t (removed id u e) h = delete_device-NoOrphans id s u e h
