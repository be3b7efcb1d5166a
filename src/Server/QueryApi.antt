-- ===== src/Server/QueryApi.antt =====
-- The query API of internal/server/query_api.go: the guard `requireAPIKey`, the parameters and the
-- handlers. The parameters of a request are a function from names to values, empty for a missing one,
-- as `url.Values.Get` gives them; `strconv.ParseInt` is a parameter of the model. A bound of a window
-- that is negative selects the same rows as 0.
pub mod Params
pub mod Answers
pub mod Revoked
use screwlogger.Base.{
  ℕ, Bool, not, ◌&&◌, ◌||◌, Option, none, some, List, [], map, ltb, if◌then◌else◌, is_empty, Text,
  codes, text_eq, ℤ, pos, negsuc, pos_part,
}
use screwlogger.Web.Wire.{Bucket, Ratio}
use screwlogger.Server.Store.{Device, Beat, Store}
use screwlogger.Server.Query.{Heartbeat, active_ratio, dwell_usage, list_events}
use screwlogger.Server.Sessions.{HttpResult, failed, succeeded}
use screwlogger.Server.Devices.{list_devices, DeviceResponse, device_response}
use screwlogger.Server.Keys.{
  ApiKey, KeyError, unknown_key, revoked_key, Resolved, scopes_of, unresolved, resolve_api_key,
}
use screwlogger.Server.Ingest.{bearer_token}

-- The columns of a row that the queries read.
abbrev pub heartbeat_of : Beat → Heartbeat
heartbeat_of x = record {
  device_id = x.device_id;
  ts = x.ts;
  app = x.app;
  category = x.category;
  active = x.active;
}

abbrev pub query_rows : Store → List Heartbeat
query_rows s = map heartbeat_of s.heartbeats

-- The parameters of a request.
abbrev pub Params : Type 0
Params = Text → Text

-- The routes of `QueryAPI`.
pub data QueryRequest : Type 0 where
  devices_query : QueryRequest
  usage_query active_ratio_query events_query : Params → QueryRequest

-- What the handlers write.
pub data QueryReply : Type 0 where
  devices_reply : List DeviceResponse → QueryReply
  usage_reply : Text → List Bucket → QueryReply
  ratio_reply : Ratio → QueryReply
  events_reply : List Heartbeat → QueryReply

abbrev pub bad_request : Text → HttpResult QueryReply
bad_request message = failed 400 message

abbrev pub or_category : Text → Text
or_category group_by = if is_empty group_by then codes "category" else group_by

-- The answer for the result of `DwellUsage`.
abbrev pub usage_result : Text → Option (List Bucket) → HttpResult QueryReply
usage_result group_by none = failed 500 (codes "storage error")
usage_result group_by (some buckets) = succeeded (usage_reply group_by buckets)

-- `handleDevices`, at a time in seconds
abbrev pub handle_devices : ℕ → Store → HttpResult QueryReply
handle_devices now s =
    succeeded (devices_reply (map (device_response now) (list_devices s.devices)))

module _ (parse_int : Text → Option ℤ) where
  -- `intParam`
  unfoldable pub int_param : Text → ℤ → Option ℤ
  int_param v default = if is_empty v then some default else parse_int v

  abbrev pub window_of : Option ℤ → Option ℤ → Option (ℕ × ℕ)
  window_of (some from) (some to) = some (pos_part from, pos_part to)
  window_of _ _ = none

  -- `parseWindow`
  unfoldable pub parse_window : ℕ → Params → Option (ℕ × ℕ)
  unfolding int_param
  parse_window now q =
      window_of (int_param (q (codes "from")) (pos 0)) (int_param (q (codes "to")) (pos now))

  abbrev pub usage_window : Text → Text → Option (ℕ × ℕ) → Store → HttpResult QueryReply
  usage_window device group_by none s = bad_request (codes "invalid from/to")
  usage_window device group_by (some (from, to)) s =
      usage_result group_by (dwell_usage device from to group_by (query_rows s))

  -- `handleUsage`
  unfoldable pub handle_usage : ℕ → Params → Store → HttpResult QueryReply
  unfolding parse_window
  handle_usage now q s =
      let group_by = or_category (q (codes "group_by")) in
      if not (text_eq group_by (codes "category")) && not (text_eq group_by (codes "app"))
      then bad_request (codes "invalid group_by")
      else usage_window (q (codes "device")) group_by (parse_window now q) s

  abbrev pub ratio_window : Text → Option (ℕ × ℕ) → Store → HttpResult QueryReply
  ratio_window device none s = bad_request (codes "invalid from/to")
  ratio_window device (some (from, to)) s =
      succeeded (ratio_reply (active_ratio device from to (query_rows s)))

  -- `handleActiveRatio`
  unfoldable pub handle_active_ratio : ℕ → Params → Store → HttpResult QueryReply
  unfolding parse_window
  handle_active_ratio now q s = ratio_window (q (codes "device")) (parse_window now q) s

  -- A limit that was read.
  abbrev pub checked_limit : Option ℤ → HttpResult ℕ
  checked_limit none = failed 400 (codes "invalid limit")
  checked_limit (some (negsuc n)) = failed 400 (codes "limit out of range")
  checked_limit (some (pos n)) =
      if ltb n 1 || ltb 10000 n then failed 400 (codes "limit out of range") else succeeded n

  -- The limit that `ListEvents` gets: 0 if there is none.
  unfoldable pub limit_param : Text → HttpResult ℕ
  limit_param v = if is_empty v then succeeded 0 else checked_limit (parse_int v)

  abbrev pub events_limit : Text → ℕ → ℕ → HttpResult ℕ → Store → HttpResult QueryReply
  events_limit device from to (failed status message) s = failed status message
  events_limit device from to (succeeded limit) s =
      succeeded (events_reply (list_events device from to limit (query_rows s)))

  abbrev pub events_window : Text → Option (ℕ × ℕ) → Text → Store → HttpResult QueryReply
  events_window device none limit s = bad_request (codes "invalid from/to")
  events_window device (some (from, to)) limit s = events_limit device from to (limit_param limit) s

  -- `handleEvents`
  unfoldable pub handle_events : ℕ → Params → Store → HttpResult QueryReply
  unfolding parse_window limit_param
  handle_events now q s =
      events_window (q (codes "device")) (parse_window now q) (q (codes "limit")) s

  unfoldable pub handle_query : ℕ → QueryRequest → Store → HttpResult QueryReply
  unfolding handle_usage handle_active_ratio handle_events
  handle_query now devices_query s = handle_devices now s
  handle_query now (usage_query q) s = handle_usage now q s
  handle_query now (active_ratio_query q) s = handle_active_ratio now q s
  handle_query now (events_query q) s = handle_events now q s

-- The answer to a preflight request, or that of a handler.
pub data ApiAnswer : Type 0 where
  no_content : ApiAnswer
  api_answer : HttpResult QueryReply → ApiAnswer

abbrev pub key_answer : Resolved → HttpResult QueryReply → HttpResult QueryReply
key_answer (unresolved unknown_key) r = failed 401 (codes "unknown api key")
key_answer (unresolved revoked_key) r = failed 403 (codes "api key revoked")
key_answer (scopes_of scopes) r = r

abbrev pub token_answer :
    (Text → Text) → Option Text → List ApiKey → HttpResult QueryReply → HttpResult QueryReply
token_answer hash_token none keys r = failed 401 (codes "unknown api key")
token_answer hash_token (some token) keys r = key_answer (resolve_api_key hash_token token keys) r

-- `requireAPIKey` in front of `QueryAPI`
unfoldable pub query_api :
    (Text → Option ℤ)
    → (Text → Text)
    → ℕ
    → Bool
    → Text
    → QueryRequest
    → Store
    → List ApiKey
    → ApiAnswer
unfolding handle_query
query_api parse_int hash_token now is_options authorization r s keys =
    if is_options
    then no_content
    else api_answer
        (token_answer hash_token (bearer_token authorization) keys (handle_query parse_int now r s))
