-- ===== src/Server/Site.antt =====
-- The requests that the server answers and that may change what it keeps: the handlers of
-- internal/server/admin_api.go behind `RequireAdmin`, the log-in and the log-out, and `IngestHandler`,
-- as internal/server/mux.go puts them together. A handler whose body is malformed gets `none`.
pub mod Keys
pub mod Columns
pub mod Schema
pub mod Fits
pub mod Kept
pub mod Sound
pub mod Keeps
pub mod Guarded
use screwlogger.Server.QueryApi.{QueryRequest, QueryReply, handle_query}
use screwlogger.Base.{
  ℕ, ◌/◌, Bool, not, Option, none, some, List, [], ltb, ◌==◌, if◌then◌else◌, is_empty, Text, codes,
  ℤ,
}
use screwlogger.Server.Store.{
  Store, Error, unknown_device, not_revoked, Result, ok, err, revoke_device, rename_device,
  delete_device,
}
use screwlogger.Server.Sessions.{
  HttpResult, failed, succeeded, Sessions, LoginRequest, login, logout, require_admin,
}
use screwlogger.Server.Devices.{create_device, list_devices, DeviceResponse, device_response}
use screwlogger.Server.Rules.{RuleRow, upsert_rule, without_rule, list_rules, recategorize}
use screwlogger.Server.Keys.{
  ApiKey, ApiKeyRow, create_api_key, revoke_api_key_by_prefix, list_api_keys,
}
use screwlogger.Server.Ingest.{IngestRequest, ingest}

-- The libraries: the hash of a token, bcrypt, `strings.TrimSpace`, `utf8.RuneCountInString`, the
-- comparison of SQLite in `Recategorize`, and `strconv.ParseInt`.
pub record Libraries : Type 0 where
  pub hash_token : Text → Text
  pub check_password : Text → Bool
  pub trim_space : Text → Text
  pub rune_count : Text → ℕ
  pub matches : Text → Text → Bool
  pub parse_int : Text → Option ℤ

-- The random values that a request may draw.
pub record Chance : Type 0 where
  pub session : Text
  pub device_id : Text
  pub token : Text

pub record Site : Type 0 where
  pub store : Store
  pub rules : List RuleRow
  pub keys : List ApiKey
  pub sessions : Sessions

pub record RuleBody : Type 0 where
  pub pattern : Text
  pub category : Text
  pub apply_to_history : Bool

-- The routes of `AdminAPI`, with the decoded bodies and the segments of the paths.
pub data AdminRequest : Type 0 where
  device_enroll : Option Text → AdminRequest
  rules_get keys_get : AdminRequest
  query_get : QueryRequest → AdminRequest
  device_revoke device_delete key_revoke : Text → AdminRequest
  device_rename : Text → Option Text → AdminRequest
  rule_upsert : Option RuleBody → AdminRequest
  rule_delete key_create : Option Text → AdminRequest

-- What the handlers write.
pub data AdminReply : Type 0 where
  done : AdminReply
  enrolled : Text → Text → AdminReply
  recategorized_rows : ℕ → AdminReply
  created_key : Text → AdminReply
  queried : QueryReply → AdminReply
  rules_list : List RuleRow → AdminReply
  keys_list : List ApiKeyRow → AdminReply

abbrev pub Handled : Type 0
Handled = HttpResult AdminReply × Site

abbrev pub malformed : Site → Handled
malformed site = (failed 400 (codes "malformed JSON body"), site)

abbrev pub storage_error : Site → Handled
storage_error site = (failed 500 (codes "storage error"), site)

-- `time.Now().Unix()` of a time in nanoseconds
abbrev pub unix_of : ℕ → ℕ
unix_of now = now / 1_000_000_000

-- The answers to the results of the store.
abbrev pub enroll_reply : Text → Option (Text × Store) → Site → Handled
enroll_reply id none site = storage_error site
enroll_reply id (some (token, s)) site = (succeeded (enrolled id token), record site { store = s })

abbrev pub rename_reply : Result Store → Site → Handled
rename_reply (ok s) site = (succeeded done, record site { store = s })
rename_reply (err unknown_device) site = (failed 404 (codes "unknown device"), site)
rename_reply (err _) site = storage_error site

abbrev pub delete_reply : Result Store → Site → Handled
delete_reply (ok s) site = (succeeded done, record site { store = s })
delete_reply (err unknown_device) site = (failed 404 (codes "unknown device"), site)
delete_reply (err not_revoked) site = (failed 409 (codes "device is not revoked"), site)
delete_reply (err _) site = storage_error site

abbrev pub key_reply : Option (Text × List ApiKey) → Site → Handled
key_reply none site = storage_error site
key_reply (some (key, keys)) site = (succeeded (created_key key), record site { keys = keys })

-- A request to `NewMux` that may change something.
pub data Call : Type 0 where
  ingesting : IngestRequest → Call
  logging_on : LoginRequest → Call
  logging_off : Option Text → Call
  administering : Option Text → AdminRequest → Call

-- The handlers that `AdminAPI` shares with `QueryAPI`.
abbrev pub query_handled : HttpResult QueryReply → Site → Handled
query_handled (failed status message) site = (failed status message, site)
query_handled (succeeded reply) site = (succeeded (queried reply), site)

-- `maxDeviceNameLen`
abbrev pub max_device_name_len : ℕ
max_device_name_len = 128

module _ (libs : Libraries) (now : ℕ) (chance : Chance) where
  -- `handleDeviceRename`
  unfoldable pub handle_rename : Text → Option Text → Site → Handled
  handle_rename id none site = malformed site
  handle_rename id (some body) site =
      let name = libs.trim_space body in
      if is_empty name
      then (failed 400 (codes "name must not be empty"), site)
      else if ltb max_device_name_len (libs.rune_count name)
      then (failed 400 (codes "name too long (max 128 characters)"), site)
      else rename_reply (rename_device id name site.store) site

  -- `handleRuleUpsert`
  unfoldable pub handle_rule_upsert : Option RuleBody → Site → Handled
  handle_rule_upsert none site = malformed site
  handle_rule_upsert (some body) site =
      let rules = upsert_rule (unix_of now) body.pattern body.category site.rules in
      let again = recategorize libs.matches body.pattern body.category site.store in
      if body.apply_to_history
      then (succeeded (recategorized_rows again.0), record site { rules = rules; store = again.1 })
      else (succeeded done, record site { rules = rules })

  -- `handleKeyRevoke`
  unfoldable pub handle_key_revoke : Text → Site → Handled
  handle_key_revoke hash site =
      let r = revoke_api_key_by_prefix (unix_of now) hash site.keys in
      if r.0 == 0
      then (failed 404 (codes "unknown api key"), record site { keys = r.1 })
      else (succeeded done, record site { keys = r.1 })

  -- The routes of `AdminAPI` and the handlers of the others.
  unfoldable pub handle_admin : AdminRequest → Site → Handled
  unfolding handle_rename handle_rule_upsert handle_key_revoke handle_query
  handle_admin (device_enroll none) site = malformed site
  handle_admin (device_enroll (some name)) site =
      enroll_reply chance.device_id
        (create_device libs.hash_token (unix_of now) chance.device_id chance.token name site.store)
        site
  handle_admin (query_get r) site =
      query_handled (handle_query libs.parse_int (unix_of now) r site.store) site
  handle_admin (device_revoke id) site =
      (succeeded done, record site { store = revoke_device (unix_of now) id site.store })
  handle_admin (device_rename id body) site = handle_rename id body site
  handle_admin (device_delete id) site = delete_reply (delete_device id site.store) site
  handle_admin rules_get site = (succeeded (rules_list (list_rules site.rules)), site)
  handle_admin (rule_upsert body) site = handle_rule_upsert body site
  handle_admin (rule_delete none) site = malformed site
  handle_admin (rule_delete (some pattern)) site =
      (succeeded done, record site { rules = without_rule pattern site.rules })
  handle_admin (key_create none) site = malformed site
  handle_admin (key_create (some label)) site =
      key_reply (create_api_key libs.hash_token (unix_of now) chance.token label site.keys) site
  handle_admin keys_get site = (succeeded (keys_list (list_api_keys site.keys)), site)
  handle_admin (key_revoke hash) site = handle_key_revoke hash site

  -- `AdminAPI`, with the cookie of the request.
  unfoldable pub admin_api : Option Text → AdminRequest → Site → Handled
  unfolding handle_admin
  admin_api cookie r site =
      let guard = require_admin now cookie site.sessions in
      if guard.0
      then handle_admin r (record site { sessions = guard.1 })
      else (failed 401 (codes "unauthorized"), record site { sessions = guard.1 })

  -- What the server keeps after it.
  unfoldable pub after_call : Call → Site → Site
  unfolding admin_api
  after_call (ingesting r) site = record site {
    store = (ingest libs.hash_token (unix_of now) r site.store).1;
  }
  after_call (logging_on r) site = record site {
    sessions = (login libs.check_password now chance.session r site.sessions).1;
  }
  after_call (logging_off cookie) site = record site { sessions = logout cookie site.sessions }
  after_call (administering cookie r) site = (admin_api cookie r site).1
