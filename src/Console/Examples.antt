-- ===== src/Console/Examples.antt =====
-- A revoked and an active device, and what the buttons of their rows lead to.
use screwlogger.Base.{
  ℕ, ◌≡◌, refl, ◌≢◌, ◌⊎◌, true, false, Option, none, some, List, [], ◌∷◌, map, arith, length, Text,
  codes, text_eq, text_eq_iff, pos,
}
use screwlogger.Console.{wire_device}
use screwlogger.Console.Revoked.{at_once, later_call}
use screwlogger.Console.Buttons.{deletion_agrees}
use screwlogger.Web.Rows.{device_buttons, revoke, delete}
use screwlogger.Web.Rows.Buttons.{enabled}
use screwlogger.Server.Store.{Device, deleted}
use screwlogger.Server.Devices.{DeviceResponse, device_response, list_devices}
use screwlogger.Server.Sessions.{succeeded, failed}
use screwlogger.Server.QueryApi.{devices_query, devices_reply, handle_query}
use screwlogger.Server.Site.{
  Libraries, Chance, Site, administering, device_enroll, query_get, queried, done, device_delete,
  handle_admin, after_call,
}
use screwlogger.Server.Site.Fits.{FitsSchema}
use screwlogger.Server.Site.Keys.{occurs}

abbrev libs : Libraries
libs = record {
  hash_token = λ s. b'#' ∷ s;
  check_password = text_eq (codes "pw");
  trim_space = λ s. s;
  rune_count = length;
  matches = text_eq;
  parse_int = λ s. some (pos (length s));
}

abbrev drawing : Text → Chance
drawing id = record { session = codes "c1"; device_id = id; token = codes "xyz" }

abbrev device : Text → ℕ → Option ℕ → Device
device id enrolled revoked = record {
  id = id;
  name = codes "PC";
  token_hash = b'#' ∷ id;
  enrolled_at = enrolled;
  last_seen = none;
  revoked_at = revoked;
}

abbrev before : Site
before = record {
  store = record {
    devices = device (codes "d1") 5 (some 7) ∷ device (codes "d2") 6 none ∷ [];
    heartbeats = [];
  };
  rules = [];
  keys = [];
  sessions = [];
}

-- An enrolment without a session, which is refused.
abbrev after : Site
after =
    after_call libs 0 (drawing (codes "d3"))
      (administering none (device_enroll (some (codes "PC 4")))) before

abbrev rows : List DeviceResponse
rows = map (device_response 0) (list_devices before.store.devices)

-- The newest device comes first.
row_order : map (λ (r : DeviceResponse). r.id) rows ≡ codes "d2" ∷ codes "d1" ∷ []
unfolding list_devices
row_order = refl

abbrev row : DeviceResponse
row = device_response 0 (device (codes "d1") 5 (some 7))

before-FitsSchema : FitsSchema before
unfolding text_eq occurs
before-FitsSchema = record {
  store_fits = record { devices_key = (refl, (refl, tt)); heartbeats_key = tt; references = tt };
  rules_key = tt;
  keys_key = tt;
}

answered :
    handle_admin libs 0 (drawing (codes "d3")) (query_get devices_query) before
    ≡ (succeeded (queried (devices_reply rows)), before)
unfolding handle_admin handle_query
answered = refl

differs : text_eq (codes "d3") row.id ≡ false
unfolding text_eq
differs = refl

other_id : codes "d3" ≢ row.id
other_id e = ground (arith, differs, text_eq_iff (codes "d3") row.id, e)

deletion_agrees_example :
    ((enabled delete (device_buttons (wire_device row)) ≡ true)
      × (enabled revoke (device_buttons (wire_device row)) ≡ false)
      × ((handle_admin libs 0 (drawing (codes "d3")) (device_delete row.id) after
            ≡ (succeeded done, record after { store = deleted row.id after.store }))
          ⊎ (handle_admin libs 0 (drawing (codes "d3")) (device_delete row.id) after
              ≡ (failed 404 (codes "unknown device"), after))))
    ⊎ ((enabled delete (device_buttons (wire_device row)) ≡ false)
        × (enabled revoke (device_buttons (wire_device row)) ≡ true)
        × (handle_admin libs 0 (drawing (codes "d3")) (device_delete row.id) before
            ≡ (failed 409 (codes "device is not revoked"), before)))
unfolding list_devices
deletion_agrees_example =
    deletion_agrees libs 0 0 (drawing (codes "d3")) (drawing (codes "d3")) before after rows 1 row
      before-FitsSchema answered refl
      (later_call 0 (drawing (codes "d3"))
        (administering none (device_enroll (some (codes "PC 4")))) before at_once other_id)
