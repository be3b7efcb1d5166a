-- ===== src/Server/Store.antt =====
-- The store of internal/server/store.go: the tables `devices` and `heartbeats` and the methods that
-- read and change them. A table is a list of rows in the order of insertion; a transaction that ends
-- in an error leaves the store as it was. The clock and the random identifiers are arguments, the
-- hash of a token is a parameter, and failures of the database itself are left out.
pub mod Insert
pub mod Revoke
pub mod Delete
pub mod Orphans
use screwlogger.Base.{
  ℕ, ◌+◌, Bool, true, false, ◌&&◌, ◌||◌, Option, none, some, List, [], ◌∷◌, ◌++◌, map, ltb,
  if◌then◌else◌, Text, text_eq,
}

-- A row of the table `devices`.
pub record Device : Type 0 where
  pub id : Text
  pub name : Text
  pub token_hash : Text
  pub enrolled_at : ℕ
  pub last_seen : Option ℕ
  pub revoked_at : Option ℕ

-- A row of the table `heartbeats`.
pub record Beat : Type 0 where
  pub id : Text
  pub device_id : Text
  pub ts : ℕ
  pub app : Text
  pub category : Text
  pub active : Bool
  pub received_at : ℕ
  pub agent_sent_at : ℕ

pub record Store : Type 0 where
  pub devices : List Device
  pub heartbeats : List Beat

-- `protocol.Heartbeat`
pub record Sent : Type 0 where
  pub id : Text
  pub ts : ℕ
  pub app : Text
  pub category : Text
  pub active : Bool

pub data Error : Type 0 where
  unknown_token revoked unknown_device not_revoked foreign_key : Error

pub data Result (A : Type 0) : Type 0 where
  ok : A → Result A
  err : Error → Result A

-- Whether the primary key is taken.
unfoldable pub has_beat : Text → List Beat → Bool
has_beat id [] = false
has_beat id (x ∷ xs) = text_eq x.id id || has_beat id xs

abbrev pub beat_of : Text → ℕ → ℕ → Sent → Beat
beat_of device_id sent_at received_at h = record {
  id = h.id;
  device_id = device_id;
  ts = h.ts;
  app = h.app;
  category = h.category;
  active = h.active;
  received_at = received_at;
  agent_sent_at = sent_at;
}

-- The loop of `InsertHeartbeats`: the number of rows that were inserted, and the table.
unfoldable pub insert_or_ignore : List Beat → List Beat → ℕ × List Beat
unfolding has_beat
insert_or_ignore [] table = (0, table)
insert_or_ignore (x ∷ xs) table =
    let ignored = insert_or_ignore xs table in
    let inserted = insert_or_ignore xs (table ++ x ∷ []) in
    if has_beat x.id table then ignored else (inserted.0 + 1, inserted.1)

-- `UPDATE devices SET … WHERE id = ?`
unfoldable pub update : Text → (Device → Device) → List Device → List Device
update id f [] = []
update id f (d ∷ ds) = (if text_eq d.id id then f d else d) ∷ update id f ds

-- `SELECT … FROM devices WHERE id = ?`
unfoldable pub by_id : Text → List Device → Option Device
by_id id [] = none
by_id id (d ∷ ds) = if text_eq d.id id then some d else by_id id ds

-- Whether the reference of a heartbeat to its device is broken.
abbrev pub is_missing : Option Device → Bool
is_missing none = true
is_missing (some d) = false

-- `InsertHeartbeats`, at a time in seconds. The foreign key is checked for a row that is inserted,
-- not for one that is ignored.
unfoldable pub insert_heartbeats : ℕ → Text → ℕ → List Sent → Store → Result (ℕ × Store)
unfolding insert_or_ignore update by_id
insert_heartbeats now device_id sent_at hbs s =
    let r = insert_or_ignore (map (beat_of device_id sent_at now) hbs) s.heartbeats in
    if ltb 0 r.0 && is_missing (by_id device_id s.devices)
    then err foreign_key
    else ok (
      r.0,
      record {
        devices = update device_id (λ d. record d { last_seen = some now }) s.devices;
        heartbeats = r.1;
      },
    )

-- `SELECT … FROM devices WHERE token_hash = ?`, the first row.
unfoldable pub by_hash : Text → List Device → Option Device
by_hash h [] = none
by_hash h (d ∷ ds) = if text_eq d.token_hash h then some d else by_hash h ds

abbrev pub token_result : Option Device → Result Text
token_result none = err unknown_token
token_result (some d) = elim d.revoked_at [ none ↦ ok d.id | some _ ↦ err revoked ]

-- `DeviceIDByToken`; the first argument is `hashToken`.
unfoldable pub device_id_by_token : (Text → Text) → Text → Store → Result Text
unfolding by_hash
device_id_by_token hash_token token s = token_result (by_hash (hash_token token) s.devices)

-- `RevokeDevice`
unfoldable pub revoke_device : ℕ → Text → Store → Store
unfolding update
revoke_device now id s = record s {
  devices = update id (λ d. record d { revoked_at = some now }) s.devices;
}

-- `RenameDevice`
unfoldable pub rename_device : Text → Text → Store → Result Store
unfolding by_id update
rename_device id name s = elim (by_id id s.devices) [
  | none ↦ err unknown_device
  | some _ ↦ ok (record s { devices = update id (λ d. record d { name = name }) s.devices })
]

-- `DELETE FROM heartbeats WHERE device_id = ?`
unfoldable pub without_beats : Text → List Beat → List Beat
without_beats id [] = []
without_beats id (x ∷ xs) =
    if text_eq x.device_id id then without_beats id xs else x ∷ without_beats id xs

-- `DELETE FROM devices WHERE id = ?`
unfoldable pub without_device : Text → List Device → List Device
without_device id [] = []
without_device id (d ∷ ds) =
    if text_eq d.id id then without_device id ds else d ∷ without_device id ds

abbrev pub deleted : Text → Store → Store
deleted id s = record {
  devices = without_device id s.devices;
  heartbeats = without_beats id s.heartbeats;
}

-- The guards of `DeleteDevice`, on the row of the device.
abbrev pub delete_found : Text → Option Device → Store → Result Store
delete_found id none s = err unknown_device
delete_found id (some d) s = elim d.revoked_at [
  | none ↦ err not_revoked
  | some _ ↦ ok (deleted id s)
]

-- `DeleteDevice`
unfoldable pub delete_device : Text → Store → Result Store
unfolding by_id without_beats without_device
delete_device id s = delete_found id (by_id id s.devices) s
