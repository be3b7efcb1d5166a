-- ===== src/Server/Devices.antt =====
-- The enrolment and the listing of devices: `CreateDevice` and `ListDevices` of
-- internal/server/store.go, and `deviceStatus` and the answer of `handleDevices` in
-- internal/server/query_api.go. The random identifier and token are arguments.
use screwlogger.Base.{
  ℕ, ◌-◌, not, Option, none, some, List, [], ◌∷◌, ◌++◌, ltb, leb, if◌then◌else◌, Text, codes,
}
use screwlogger.Server.Store.{Device, Store, is_missing, by_id}

-- `CreateDevice`, with the token and the store; `none` if the identifier is taken.
unfoldable pub create_device :
    (Text → Text) → ℕ → Text → Text → Text → Store → Option (Text × Store)
unfolding by_id
create_device hash_token now id random name s =
    let token = codes "sl_" ++ random in
    let row : Device = record {
      id = id;
      name = name;
      token_hash = hash_token token;
      enrolled_at = now;
      last_seen = none;
      revoked_at = none;
    } in
    if not (is_missing (by_id id s.devices))
    then none
    else some (token, record s { devices = s.devices ++ row ∷ [] })

unfoldable pub insert_newest : Device → List Device → List Device
insert_newest d [] = d ∷ []
insert_newest d (x ∷ xs) =
    if leb x.enrolled_at d.enrolled_at then d ∷ x ∷ xs else x ∷ insert_newest d xs

-- `ListDevices`: `ORDER BY enrolled_at DESC`, which leaves the order of equal times open.
unfoldable pub list_devices : List Device → List Device
unfolding insert_newest
list_devices [] = []
list_devices (d ∷ ds) = insert_newest d (list_devices ds)

-- `offlineAfter`
abbrev pub offline_after : ℕ
offline_after = 120

abbrev pub seen_status : ℕ → Option ℕ → Text
seen_status now none = codes "offline"
seen_status now (some seen) =
    if ltb offline_after (now - seen) then codes "offline" else codes "active"

-- `deviceStatus`; a clock that runs behind `last_seen` gives a difference that is not positive.
unfoldable pub device_status : ℕ → Device → Text
device_status now d = elim d.revoked_at [
  | none ↦ seen_status now d.last_seen
  | some _ ↦ codes "revoked"
]

-- `deviceResponse`
pub record DeviceResponse : Type 0 where
  pub id : Text
  pub name : Text
  pub enrolled_at : ℕ
  pub last_seen : Option ℕ
  pub revoked_at : Option ℕ
  pub status : Text

abbrev pub device_response : ℕ → Device → DeviceResponse
device_response now d = record {
  id = d.id;
  name = d.name;
  enrolled_at = d.enrolled_at;
  last_seen = d.last_seen;
  revoked_at = d.revoked_at;
  status = device_status now d;
}
