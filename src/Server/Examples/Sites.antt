-- ===== src/Server/Examples/Sites.antt =====
-- A day of an administrator: a log-in, changes to the tables, a log-out, and requests that are refused.
use screwlogger.Base.{
  ℕ, ◌*◌, ◌≡◌, refl, ◌≢◌, ◌⊎◌, true, false, Option, none, some, List, [], ◌∷◌, map, arith, length,
  Text, codes, text_eq, pos,
}
use screwlogger.Server.Store.{Device, delete_device}
use screwlogger.Server.Sessions.{failed, succeeded, login, require_admin}
use screwlogger.Server.Sessions.History.{CookieEntry, opened}
use screwlogger.Server.Devices.{create_device}
use screwlogger.Server.Keys.{
  create_api_key, revoke_api_key_by_prefix, resolve_api_key, unresolved, revoked_key, ApiKey,
  scopes_of, revoke_api_key,
}
use screwlogger.Server.Keys.Life.{create_api_key_lem}
use screwlogger.Server.Site.{
  Libraries, Chance, Site, Call, logging_on, administering, device_enroll, device_delete,
  key_create, key_revoke, handle_admin, admin_api, after_call,
}
use screwlogger.Server.Site.Fits.{FitsSchema}
use screwlogger.Server.Site.Sound.{after_call-FitsSchema}
use screwlogger.Server.Site.Guarded.{
  Served, start_serving, then_call, is_open_for, admin_api-is_open,
}

-- Stand-ins for the libraries.
abbrev libs : Libraries
libs = record {
  hash_token = λ s. b'#' ∷ s;
  check_password = text_eq (codes "pw");
  trim_space = λ s. s;
  rune_count = length;
  matches = text_eq;
  parse_int = λ s. some (pos (length s));
}

abbrev empty : Site
empty = record {
  store = record { devices = []; heartbeats = [] };
  rules = [];
  keys = [];
  sessions = [];
}

abbrev chance : Chance
chance = record { session = codes "c1"; device_id = codes "d1"; token = codes "xyz" }

-- Hours since the start, in nanoseconds.
abbrev hours : ℕ → ℕ
hours n = n * 3600 * 1_000_000_000

abbrev logging_on_with : Text → Call
logging_on_with password = logging_on (record { is_post = true; password = some password })

abbrev cookie : Option Text
cookie = some (codes "c1")

abbrev enrolment : Call
enrolment = administering cookie (device_enroll (some (codes "PC 4")))

abbrev opened_site : Site
opened_site = after_call libs (hours 1) chance (logging_on_with (codes "pw")) empty

abbrev enrolled_site : Site
enrolled_site = after_call libs (hours 2) chance enrolment opened_site

abbrev history : List CookieEntry
history = opened (codes "c1") (hours 1) ∷ []

day : Served libs (hours 2) history enrolled_site
unfolding login text_eq
day =
    then_call (hours 1) (hours 2) chance enrolment history opened_site
      (then_call 0 (hours 1) chance (logging_on_with (codes "pw")) [] empty
        (start_serving empty refl) (omega arith))
      (omega arith)

names_in : Site → List Text
names_in site = map (λ (d : Device). d.name) site.store.devices

enrolment_done : names_in enrolled_site ≡ codes "PC 4" ∷ []
unfolding names_in after_call login require_admin create_device text_eq
enrolment_done = refl

abbrev status_of_call : ℕ → Option Text → ℕ
status_of_call now c =
    elim (admin_api libs now chance c (device_delete (codes "d1")) enrolled_site).0 [
      | failed status message ↦ status
      | succeeded reply ↦ 200
    ]

-- The device is not revoked; the session is too old, unknown or missing.
statuses :
    status_of_call (hours 13) cookie
      ∷ status_of_call (hours 14) cookie
      ∷ status_of_call (hours 3) (some (codes "c2"))
      ∷ status_of_call (hours 3) none
      ∷ []
    ≡ 409 ∷ 401 ∷ 401 ∷ 401 ∷ []
unfolding admin_api after_call login create_device delete_device require_admin text_eq
statuses = refl

admin_api-is_open_example :
    ((is_open_for (hours 14) cookie history ≡ true)
      × (admin_api libs (hours 14) chance cookie (device_delete (codes "d1")) enrolled_site
          ≡ handle_admin libs (hours 14) chance (device_delete (codes "d1")) enrolled_site))
    ⊎ ((is_open_for (hours 14) cookie history ≡ false)
        × ((admin_api libs (hours 14) chance cookie (device_delete (codes "d1")) enrolled_site).0
            ≡ failed 401 (codes "unauthorized"))
        × ((admin_api libs
              (hours 14)
              chance
              cookie
              (device_delete (codes "d1"))
              enrolled_site).1.store
            ≡ enrolled_site.store)
        × ((admin_api libs
              (hours 14)
              chance
              cookie
              (device_delete (codes "d1"))
              enrolled_site).1.rules
            ≡ enrolled_site.rules)
        × ((admin_api libs
              (hours 14)
              chance
              cookie
              (device_delete (codes "d1"))
              enrolled_site).1.keys
            ≡ enrolled_site.keys))
admin_api-is_open_example =
    admin_api-is_open libs (hours 2) (hours 14) chance cookie (device_delete (codes "d1")) history
      enrolled_site day (omega arith)

empty-FitsSchema : FitsSchema empty
empty-FitsSchema = record {
  store_fits = record { devices_key = tt; heartbeats_key = tt; references = tt };
  rules_key = tt;
  keys_key = tt;
}

opened-FitsSchema : FitsSchema opened_site
unfolding after_call
opened-FitsSchema = record {
  store_fits = record { devices_key = tt; heartbeats_key = tt; references = tt };
  rules_key = tt;
  keys_key = tt;
}

after_call-FitsSchema_example : FitsSchema enrolled_site
after_call-FitsSchema_example =
    after_call-FitsSchema libs (hours 2) chance enrolment opened_site opened-FitsSchema

abbrev keyed_site : Site
keyed_site =
    after_call libs (hours 2) chance (administering cookie (key_create (some (codes "BI"))))
      opened_site

-- The key `ak_xyz` is known by its hash, of which the first eight characters name it.
key_revoked :
    resolve_api_key libs.hash_token
      (codes "ak_xyz")
      (after_call libs
        (hours 3)
        chance
        (administering cookie (key_revoke (codes "#ak_xyz")))
        keyed_site).keys
    ≡ unresolved revoked_key
unfolding after_call login require_admin resolve_api_key text_eq create_api_key
    revoke_api_key_by_prefix
key_revoked = refl

abbrev one_key : List ApiKey
one_key =
    (record {
      key_hash = codes "#ak_xyz";
      label = codes "BI";
      scopes = codes "read";
      created_at = 1;
      revoked_at = none;
    })
    ∷ []

key_created :
    create_api_key libs.hash_token 1 (codes "xyz") (codes "BI") [] ≡ some (codes "ak_xyz", one_key)
unfolding create_api_key
key_created = refl

create_api_key_lem_example :
    (resolve_api_key libs.hash_token (codes "ak_xyz") one_key ≡ scopes_of (codes "read"))
    × (resolve_api_key libs.hash_token
          (codes "ak_xyz")
          (revoke_api_key libs.hash_token 2 (codes "ak_xyz") one_key)
        ≡ unresolved revoked_key)
    × ((other : Text)
        → libs.hash_token (codes "ak_xyz") ≢ libs.hash_token other
        → resolve_api_key libs.hash_token other
            (revoke_api_key libs.hash_token 2 (codes "ak_xyz") one_key)
          ≡ resolve_api_key libs.hash_token other [])
create_api_key_lem_example =
    create_api_key_lem libs.hash_token 1 2 (codes "xyz") (codes "BI") (codes "ak_xyz") [] one_key
      key_created
