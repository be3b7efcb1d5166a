-- ===== src/Server/Examples/Asked.antt =====
-- Requests to the query API.
use screwlogger.Base.{
  ℕ, ◌-◌, ◌≡◌, refl, true, false, ◌||◌, Option, none, some, [], ◌∷◌, ◌++◌, map, arith, ltb,
  if◌then◌else◌, Text, codes, text_eq, ℤ, pos,
}
use screwlogger.Server.Store.{Beat, Store}
use screwlogger.Server.Query.{dwell_usage}
use screwlogger.Server.Sessions.{failed, succeeded}
use screwlogger.Server.Keys.{ApiKey, key_by_hash, revoke_api_key_by_prefix, key_row}
use screwlogger.Server.Ingest.{bearer}
use screwlogger.Server.QueryApi.{
  Params, QueryRequest, devices_query, usage_query, events_query, handle_query, query_api,
  api_answer,
}
use screwlogger.Server.QueryApi.Revoked.{query_api-revoke}

-- A stand-in for the reading of a number: one digit.
abbrev digit : Text → Option ℤ
digit (c ∷ []) = if ltb c 48 || ltb 57 c then none else some (pos (c - 48))
digit s = none

abbrev tagged : Text → Text
tagged s = b'#' ∷ s

abbrev beat : Text → ℕ → Beat
beat id ts = record {
  id = id;
  device_id = codes "a";
  ts = ts;
  app = codes "x.exe";
  category = codes "MES";
  active = true;
  received_at = 200;
  agent_sent_at = 190;
}

abbrev store : Store
store = record {
  devices = [];
  heartbeats = beat (codes "u1") 3 ∷ beat (codes "u2") 5 ∷ beat (codes "u3") 9 ∷ [];
}

-- The parameters `from`, `to` and `limit`.
abbrev asked : Text → Text → Text → Params
asked from to limit name =
    if text_eq name (codes "from")
    then from
    else if text_eq name (codes "to")
    then to
    else if text_eq name (codes "limit")
    then limit
    else []

abbrev code_of : QueryRequest → ℕ
code_of r = elim (handle_query digit 100 r store) [
  | failed status message ↦ status
  | succeeded reply ↦ 200
]

codes_of :
    map code_of (
      usage_query (asked [] [] [])
      ∷ usage_query (asked (codes "x") [] [])
      ∷ events_query (asked [] (codes "8") (codes "1"))
      ∷ events_query (asked [] (codes "8") (codes "0"))
      ∷ events_query (asked [] (codes "8") (codes "many"))
      ∷ devices_query
      ∷ [])
    ≡ 200 ∷ 400 ∷ 200 ∷ 400 ∷ 400 ∷ 200 ∷ []
unfolding handle_query dwell_usage text_eq
codes_of = refl

abbrev key : ApiKey
key = record {
  key_hash = codes "#ak_secret";
  label = codes "BI";
  scopes = codes "read";
  created_at = 10;
  revoked_at = none;
}

found : key_by_hash (tagged (codes "ak_secret")) (key ∷ []) ≡ some key
unfolding key_by_hash text_eq
found = refl

query_api-revoke_example :
    query_api digit tagged 60 false
      (bearer ++ codes "ak_secret")
      devices_query
      store
      (revoke_api_key_by_prefix 50 (key_row key).hash_prefix (key ∷ [])).1
    ≡ api_answer (failed 403 (codes "api key revoked"))
query_api-revoke_example =
    query_api-revoke digit tagged 50 60 (codes "ak_secret") devices_query store (key ∷ []) key
      (omega arith) found
