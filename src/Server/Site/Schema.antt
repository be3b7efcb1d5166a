-- ===== src/Server/Site/Schema.antt =====
-- The constraints of the constant `schema` of internal/server/store.go on the tables of devices and
-- heartbeats.
use screwlogger.Base.{
  ℕ, ◌≡◌, refl, sym, ap, ◌∙◌, inl, inr, Bool, true, false, not, none, some, List, [], ◌∷◌, ◌++◌,
  arith, Bool-cases, All-mono, All, Text, codes,
}
use mathlib.Core.Path.{subst}
use screwlogger.Server.Store.{
  Device, Beat, Store, ok, is_missing, by_id, revoke_device, rename_device, delete_device, deleted,
}
use screwlogger.Server.Store.Insert.{insert_heartbeats_done}
use screwlogger.Server.Store.Orphans.{
  NoOrphans, insert_heartbeats-devices, insert_heartbeats-NoOrphans, revoke_device-NoOrphans,
  rename_device-NoOrphans, delete_device-NoOrphans, renamed_store,
}
use screwlogger.Server.Store.Delete.{delete_found-ok}
use screwlogger.Server.Devices.{create_device}
use screwlogger.Server.Rules.{recategorize, recategorized_beats}
use screwlogger.Server.Ingest.{IngestRequest, Reply, refused, accepted, ingest}
use screwlogger.Server.Ingest.Refused.{Outcome, ingest-Outcome}
use screwlogger.Server.Site.Keys.{IsKey, IsKey-append}
use screwlogger.Server.Site.Columns.{
  device_ids, beat_ids, device_ids-update, without_device-IsKey, without_beats-IsKey,
  insert_or_ignore-IsKey, occurs-by_id, beat_ids-recategorized_beats,
}

-- The primary keys and the reference of the tables of devices and heartbeats.
pub record StoreFits (s : Store) : Type 0 where
  pub devices_key : IsKey (device_ids s.devices)
  pub heartbeats_key : IsKey (beat_ids s.heartbeats)
  pub references : NoOrphans s

pub ingest-StoreFits :
    (hash_token : Text → Text) (now : ℕ) (r : IngestRequest) (s : Store)
    → StoreFits s
    → StoreFits (ingest hash_token now r s).1
ingest-StoreFits hash_token now r s f =
    go (ingest hash_token now r s) (ingest-Outcome hash_token now r s)
  where
    go : (o : Reply × Store) → Outcome hash_token now r s o → StoreFits o.1
    go (refused code message, t) (ne, e) = subst StoreFits (sym e) f
    go (accepted n, t) (token, id, batch, a, b, c, v, i) = record {
      devices_key =
          subst (λ ds. IsKey (device_ids ds))
            (sym (insert_heartbeats-devices now batch.device_sent_at id batch.heartbeats s t n i))
            (subst IsKey
              (sym (
                device_ids-update id (λ d. record d { last_seen = some now }) s.devices
                  (λ d. refl)))
              f.devices_key);
      heartbeats_key =
          subst (λ xs. IsKey (beat_ids xs))
            (sym (insert_heartbeats_done now batch.device_sent_at id batch.heartbeats s n t i).1)
            (insert_or_ignore-IsKey _ s.heartbeats f.heartbeats_key);
      references =
          insert_heartbeats-NoOrphans now batch.device_sent_at id batch.heartbeats s t n i
            f.references;
    }

pub revoke_device-StoreFits :
    (now : ℕ) (id : Text) (s : Store) → StoreFits s → StoreFits (revoke_device now id s)
revoke_device-StoreFits now id s f = record {
  devices_key =
      unfold revoke_device in
      subst IsKey
        (sym (device_ids-update id (λ d. record d { revoked_at = some now }) s.devices (λ d. refl)))
        f.devices_key;
  heartbeats_key = unfold revoke_device in f.heartbeats_key;
  references = revoke_device-NoOrphans now id s f.references;
}

pub rename_device-StoreFits :
    (id name : Text) (s t : Store) → rename_device id name s ≡ ok t → StoreFits s → StoreFits t
rename_device-StoreFits id name s t e f = record {
  devices_key =
      subst (λ (u : Store). IsKey (device_ids u.devices)) (sym (renamed_store id name s t e))
        (subst IsKey
          (sym (device_ids-update id (λ d. record d { name = name }) s.devices (λ d. refl)))
          f.devices_key);
  heartbeats_key =
      subst (λ (u : Store). IsKey (beat_ids u.heartbeats)) (sym (renamed_store id name s t e))
        f.heartbeats_key;
  references = rename_device-NoOrphans id name s t e f.references;
}

pub delete_device-StoreFits :
    (id : Text) (s t : Store) → delete_device id s ≡ ok t → StoreFits s → StoreFits t
unfolding delete_device
delete_device-StoreFits id s t e f =
    let same : t ≡ deleted id s = (delete_found-ok id (by_id id s.devices) s t e).1 in
    record {
      devices_key =
          subst (λ (u : Store). IsKey (device_ids u.devices)) (sym same)
            (without_device-IsKey id s.devices f.devices_key);
      heartbeats_key =
          subst (λ (u : Store). IsKey (beat_ids u.heartbeats)) (sym same)
            (without_beats-IsKey id s.heartbeats f.heartbeats_key);
      references = delete_device-NoOrphans id s t e f.references;
    }

device_ids-append : (ds es : List Device) → device_ids (ds ++ es) ≡ device_ids ds ++ device_ids es
device_ids-append [] es = refl
device_ids-append (d ∷ ds) es = ap (d.id ∷◌) (device_ids-append ds es)

is_missing-append :
    (id : Text) (ds es : List Device)
    → is_missing (by_id id ds) ≡ false
    → is_missing (by_id id (ds ++ es)) ≡ false
unfolding by_id
is_missing-append id [] es h = cc
is_missing-append id (d ∷ ds) es h = ground (arith, is_missing-append id ds es, h)

enlisted-StoreFits :
    (d : Device) (s : Store)
    → is_missing (by_id d.id s.devices) ≡ true
    → StoreFits s
    → StoreFits (record s { devices = s.devices ++ d ∷ [] })
enlisted-StoreFits d s new f = record {
  devices_key = subst IsKey (sym (device_ids-append s.devices (d ∷ []))) (
      IsKey-append d.id (device_ids s.devices) (occurs-by_id d.id s.devices ∙ ap not new)
        f.devices_key);
  heartbeats_key = f.heartbeats_key;
  references =
      All-mono (λ x. is_missing (by_id x.device_id s.devices) ≡ false)
        (λ x. is_missing (by_id x.device_id (s.devices ++ d ∷ [])) ≡ false) s.heartbeats
        (λ x. is_missing-append x.device_id s.devices (d ∷ [])) f.references;
}

pub create_device-StoreFits :
    (hash_token : Text → Text) (now : ℕ) (id random name token : Text) (s t : Store)
    → create_device hash_token now id random name s ≡ some (token, t)
    → StoreFits s
    → StoreFits t
unfolding create_device
create_device-StoreFits hash_token now id random name token s t e f =
    elim (Bool-cases (is_missing (by_id id s.devices))) [
      | inl g ↦ subst StoreFits (ground (arith, e, g)) (
          enlisted-StoreFits
            (record {
              id = id;
              name = name;
              token_hash = hash_token (codes "sl_" ++ random);
              enrolled_at = now;
              last_seen = none;
              revoked_at = none;
            })
            s g f)
      | inr g ↦ absurd (ground (arith, e, g))
    ]

recategorized_beats_references :
    (matches : Text → Text → Bool) (p category : Text) (ds : List Device) (xs : List Beat)
    → All (λ x. is_missing (by_id x.device_id ds) ≡ false) xs
    → All
        (λ x. is_missing (by_id x.device_id ds) ≡ false)
        (recategorized_beats matches p category xs).1
unfolding recategorized_beats
recategorized_beats_references matches p category ds [] h = tt
recategorized_beats_references matches p category ds (x ∷ xs) (k, h) =
    elim (Bool-cases (matches x.app p)) [
      | inl e ↦
          rw (e, recategorized_beats) (k, recategorized_beats_references matches p category ds xs h)
      | inr e ↦
          rw (e, recategorized_beats) (k, recategorized_beats_references matches p category ds xs h)
    ]

pub recategorize-StoreFits :
    (matches : Text → Text → Bool) (p category : Text) (s : Store)
    → StoreFits s
    → StoreFits (recategorize matches p category s).1
unfolding recategorize
recategorize-StoreFits matches p category s f = record {
  devices_key = f.devices_key;
  heartbeats_key =
      subst IsKey (sym (beat_ids-recategorized_beats matches p category s.heartbeats))
        f.heartbeats_key;
  references =
      recategorized_beats_references matches p category s.devices s.heartbeats f.references;
}
