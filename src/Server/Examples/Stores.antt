-- ===== src/Server/Examples/Stores.antt =====
-- A store with two devices, through the methods of internal/server/store.go.
use screwlogger.Base.{
  ℕ, ◌+◌, ◌≡◌, refl, ◌≢◌, true, Option, none, some, List, [], ◌∷◌, length, Text, codes, text_eq,
}
use screwlogger.Server.Store.{
  Device, Beat, Store, Sent, ok, err, revoked, insert_heartbeats, device_id_by_token, revoke_device,
  delete_device, by_id,
}
use screwlogger.Server.Store.Insert.{insert_heartbeats_lem}
use screwlogger.Server.Store.Revoke.{device_id_by_token-revoke_device}
use screwlogger.Server.Store.Delete.{beats_of, delete_device-ok}

-- A stand-in for the hash of a token.
abbrev tagged : Text → Text
tagged s = b'#' ∷ s

abbrev device : Text → Option ℕ → Option ℕ → Device
device id seen gone = record {
  id = id;
  name = codes "PC 4";
  token_hash = b'#' ∷ id;
  enrolled_at = 10;
  last_seen = seen;
  revoked_at = gone;
}

abbrev sent : Text → ℕ → Sent
sent id ts = record { id = id; ts = ts; app = codes "x.exe"; category = codes "MES"; active = true }

abbrev batch : List Sent
batch = sent (codes "u1") 100 ∷ sent (codes "u2") 115 ∷ sent (codes "u1") 130 ∷ []

abbrev before : Store
before = record {
  devices = device (codes "a") none none ∷ device (codes "b") none (some 50) ∷ [];
  heartbeats = [];
}

abbrev kept : Text → ℕ → Beat
kept id ts = record {
  id = id;
  device_id = codes "a";
  ts = ts;
  app = codes "x.exe";
  category = codes "MES";
  active = true;
  received_at = 200;
  agent_sent_at = 190;
}

abbrev after : Store
after = record {
  devices = device (codes "a") (some 200) none ∷ device (codes "b") none (some 50) ∷ [];
  heartbeats = kept (codes "u1") 100 ∷ kept (codes "u2") 115 ∷ [];
}

-- The second heartbeat of that identifier in the batch is ignored.
stored : insert_heartbeats 200 (codes "a") 190 batch before ≡ ok (2, after)
unfolding insert_heartbeats text_eq
stored = refl

insert_heartbeats_lem_example :
    (length after.heartbeats ≡ length before.heartbeats + 2)
    × (u : Store) × (insert_heartbeats 300 (codes "a") 290 batch after ≡ ok (0, u))
    × (u.heartbeats ≡ after.heartbeats)
insert_heartbeats_lem_example =
    insert_heartbeats_lem 200 190 300 290 (codes "a") (codes "a") batch before 2 after stored

accepted : device_id_by_token tagged (codes "a") after ≡ ok (codes "a")
unfolding device_id_by_token text_eq
accepted = refl

device_id_by_token-revoke_device_example :
    device_id_by_token tagged (codes "a") (revoke_device 300 (codes "a") after) ≡ err revoked
device_id_by_token-revoke_device_example =
    device_id_by_token-revoke_device tagged (codes "a") (codes "a") 300 after accepted

abbrev remaining : Store
remaining = record {
  devices = device (codes "a") (some 200) none ∷ [];
  heartbeats = after.heartbeats;
}

removed : delete_device (codes "b") after ≡ ok remaining
unfolding delete_device text_eq
removed = refl

delete_device-ok_example :
    ((d : Device) × (at : ℕ) × (by_id (codes "b") after.devices ≡ some d)
      × (d.revoked_at ≡ some at))
    × (by_id (codes "b") remaining.devices ≡ none)
    × (beats_of (codes "b") remaining.heartbeats ≡ [])
    × ((other : Text)
        → codes "b" ≢ other
        → (by_id other remaining.devices ≡ by_id other after.devices)
          × (beats_of other remaining.heartbeats ≡ beats_of other after.heartbeats))
delete_device-ok_example = delete_device-ok (codes "b") after remaining removed
