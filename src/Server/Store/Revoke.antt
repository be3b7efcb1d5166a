-- ===== src/Server/Store/Revoke.antt =====
-- Revocation and deletion of devices in internal/server/store.go.
use screwlogger.Base.{
  ℕ, ◌≡◌, refl, ap, Option, none, some, List, [], ◌∷◌, arith, Text, text_eq_refl,
}
use screwlogger.Server.Store.{
  Device, Store, ok, err, revoked, update, by_hash, token_result, device_id_by_token, revoke_device,
}

abbrev revoke_row : ℕ → Device → Device
revoke_row now d = record d { revoked_at = some now }

by_hash-update :
    (h id : Text) (now : ℕ) (ds : List Device) (d : Device)
    → by_hash h ds ≡ some d
    → d.id ≡ id
    → by_hash h (update id (revoke_row now) ds) ≡ some (revoke_row now d)
unfolding by_hash update
by_hash-update h id now [] d e i = cc
by_hash-update h id now (x ∷ ds) d e i =
    ground (arith, by_hash-update h id now ds d, text_eq_refl id)

pub token_result-ok :
    (o : Option Device) (id : Text)
    → token_result o ≡ ok id
    → (d : Device) × (o ≡ some d) × (d.id ≡ id)
token_result-ok none id e = cc
token_result-ok (some d) id e = (d, refl, ground (arith, e))

-- A token that was accepted for a device is refused as revoked once the device has been revoked.
pub device_id_by_token-revoke_device :
    (hash_token : Text → Text) (token id : Text) (now : ℕ) (s : Store)
    → device_id_by_token hash_token token s ≡ ok id
    → device_id_by_token hash_token token (revoke_device now id s) ≡ err revoked
unfolding device_id_by_token revoke_device
device_id_by_token-revoke_device hash_token token id now s e =
    let (d, f, i) = token_result-ok (by_hash (hash_token token) s.devices) id e in
    ap token_result (by_hash-update (hash_token token) id now s.devices d f i)
