-- ===== src/Console/Revoked.antt =====
-- What the requests to internal/server/mux.go do to a device that is revoked or gone.
use screwlogger.Base.{
  ℕ, ◌≡◌, refl, sym, ◌≢◌, inl, inr, Bool, true, not, Option, none, some, List, [], ◌∷◌, ◌++◌, arith,
  Bool-cases, Text, codes, text_eq_iff,
}
use screwlogger.Base.{
  ℕ, ◌≡◌, refl, sym, ◌≢◌, inl, inr, Bool, true, not, Option, none, some, List, [], ◌∷◌, ◌++◌, arith,
  Bool-cases, Text, codes, text_eq_iff,
}
use mathlib.Core.Path.{subst}
use screwlogger.Server.Store.{
  Device, Store, ok, by_id, update, without_device, is_missing, revoke_device, rename_device,
  delete_device,
}
use screwlogger.Server.Store.Delete.{by_id-without_device, delete_found-ok}
use screwlogger.Server.Store.Orphans.{insert_heartbeats-devices, renamed_store}
use screwlogger.Server.Devices.{create_device}
use screwlogger.Server.Keys.{is_none}
use screwlogger.Server.Rules.{recategorize}
use screwlogger.Server.Ingest.{IngestRequest, Reply, refused, accepted, ingest}
use screwlogger.Server.Ingest.Refused.{Outcome, ingest-Outcome}
use screwlogger.Server.Site.{Libraries, Chance, Site, Call, after_call, unix_of}
use screwlogger.Server.Site.Kept.{Closed, after_call_kept}

-- Whether a row that was looked for is none or that of a revoked device.
abbrev pub is_settled : Option Device → Bool
is_settled none = true
is_settled (some d) = not (is_none d.revoked_at)

abbrev Settled : Text → Store → Type 0
Settled id s = is_settled (by_id id s.devices) ≡ true

is_settled-update :
    (id key : Text) (f : Device → Device) (ds : List Device)
    → ((d : Device) → (f d).id ≡ d.id)
    → ((d : Device) → not (is_none d.revoked_at) ≡ true → not (is_none (f d).revoked_at) ≡ true)
    → is_settled (by_id id ds) ≡ true
    → is_settled (by_id id (update key f ds)) ≡ true
unfolding by_id update
is_settled-update id key f [] same still h = refl
is_settled-update id key f (d ∷ ds) same still h =
    ground (arith, is_settled-update id key f ds same still, same d, still d, h)

is_settled-without_device :
    (id key : Text) (ds : List Device)
    → is_settled (by_id id ds) ≡ true
    → is_settled (by_id id (without_device key ds)) ≡ true
unfolding by_id without_device
is_settled-without_device id key [] h = refl
is_settled-without_device id key (d ∷ ds) h = ground (
  arith,
  is_settled-without_device id key ds,
  by_id-without_device id ds,
  text_eq_iff d.id key,
  text_eq_iff d.id id,
  h,
)

is_settled-append :
    (id : Text) (e : Device) (ds : List Device)
    → e.id ≢ id
    → is_settled (by_id id ds) ≡ true
    → is_settled (by_id id (ds ++ e ∷ [])) ≡ true
unfolding by_id
is_settled-append id e [] ne h = ground (arith, text_eq_iff e.id id, ne)
is_settled-append id e (d ∷ ds) ne h = ground (arith, is_settled-append id e ds ne, h)

ingest-Settled :
    (hash_token : Text → Text) (now : ℕ) (id : Text) (r : IngestRequest) (s : Store)
    → Settled id s
    → Settled id (ingest hash_token now r s).1
ingest-Settled hash_token now id r s h =
    go (ingest hash_token now r s) (ingest-Outcome hash_token now r s)
  where
    go : (o : Reply × Store) → Outcome hash_token now r s o → Settled id o.1
    go (refused code message, t) (ne, e) = subst (Settled id) (sym e) h
    go (accepted n, t) (token, device, batch, a, b, c, v, i) =
        subst (λ ds. is_settled (by_id id ds) ≡ true)
          (sym (insert_heartbeats-devices now batch.device_sent_at device batch.heartbeats s t n i))
          (is_settled-update id device (λ d. record d { last_seen = some now }) s.devices
            (λ d. refl) (λ d e. e) h)

rename_device-Settled :
    (id key name : Text) (s t : Store)
    → rename_device key name s ≡ ok t
    → Settled id s
    → Settled id t
rename_device-Settled id key name s t e h =
    subst (Settled id) (sym (renamed_store key name s t e))
      (is_settled-update id key (λ d. record d { name = name }) s.devices (λ d. refl) (λ d k. k) h)

delete_device-Settled :
    (id key : Text) (s t : Store) → delete_device key s ≡ ok t → Settled id s → Settled id t
unfolding delete_device
delete_device-Settled id key s t e h =
    subst (Settled id) (sym (delete_found-ok key (by_id key s.devices) s t e).1)
      (is_settled-without_device id key s.devices h)

create_device-Settled :
    (hash_token : Text → Text) (now : ℕ) (id drawn random name token : Text) (s t : Store)
    → drawn ≢ id
    → create_device hash_token now drawn random name s ≡ some (token, t)
    → Settled id s
    → Settled id t
unfolding create_device
create_device-Settled hash_token now id drawn random name token s t ne e h =
    let d : Device = record {
      id = drawn;
      name = name;
      token_hash = hash_token (codes "sl_" ++ random);
      enrolled_at = now;
      last_seen = none;
      revoked_at = none;
    } in
    elim (Bool-cases (is_missing (by_id drawn s.devices))) [
      | inl g ↦
          let same : record s { devices = s.devices ++ d ∷ [] } ≡ t = ground (arith, e, g) in
          subst (Settled id) same (is_settled-append id d s.devices ne h)
      | inr g ↦ absurd (ground (arith, e, g))
    ]

Settled-Closed :
    (libs : Libraries) (now : ℕ) (chance : Chance) (id : Text)
    → chance.device_id ≢ id
    → Closed libs now chance (Settled id) (λ rs. Unit) (λ ks. Unit)
unfolding revoke_device recategorize
Settled-Closed libs now chance id ne = record {
  ingests = ingest-Settled libs.hash_token (unix_of now) id;
  enrolls = λ name token s t e h.
      create_device-Settled libs.hash_token (unix_of now) id chance.device_id chance.token name
        token s t ne e h;
  revokes = λ key s h.
      is_settled-update id key (λ d. record d { revoked_at = some (unix_of now) }) s.devices
        (λ d. refl) (λ d e. refl) h;
  renames = rename_device-Settled id;
  deletes = delete_device-Settled id;
  recategorizes = λ p category s h. h;
  upserts = λ p category rs u. tt;
  drops = λ p rs u. tt;
  makes = λ label token ks ls e u. tt;
  retires = λ p ks u. tt;
}

-- The states of the server after any later requests, of which no enrolment draws the identifier.
pub data Later (libs : Libraries) (id : Text) (site : Site) : Site → Type 0 where
  at_once : Later libs id site site
  later_call :
      (now : ℕ) (chance : Chance) (call : Call) (t : Site)
      → Later libs id site t
      → chance.device_id ≢ id
      → Later libs id site (after_call libs now chance call t)

-- Once revoked, a device stays so until it is gone.
pub Later-Settled :
    (libs : Libraries) (id : Text) (site t : Site)
    → Later libs id site t
    → is_settled (by_id id site.store.devices) ≡ true
    → is_settled (by_id id t.store.devices) ≡ true
Later-Settled libs id site t at_once h = h
Later-Settled libs id site t (later_call now chance call u run ne) h =
    (after_call_kept libs now chance _ _ _ (Settled-Closed libs now chance id ne) call u
      (Later-Settled libs id site u run h, tt, tt)).0
