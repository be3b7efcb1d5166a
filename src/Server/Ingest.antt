-- ===== src/Server/Ingest.antt =====
-- `IngestHandler` of internal/server/ingest.go, the endpoint at which agents deliver heartbeats, and
-- `bearerToken`. The body of a request is what the JSON decoder makes of its first mebibyte.
pub mod Refused
pub mod Accepted
use screwlogger.Base.{
  ℕ, Bool, not, ◌||◌, Option, none, some, List, [], leb, ◌==◌, if◌then◌else◌, length, take, drop,
  Text, codes, text_eq,
}
use screwlogger.Server.Store.{
  Sent, Store, Error, unknown_token, revoked, unknown_device, not_revoked, foreign_key, Result, ok,
  err, device_id_by_token, insert_heartbeats,
}

-- `protocol.IngestBatch`
pub record IngestBatch : Type 0 where
  pub schema_version : ℕ
  pub device_sent_at : ℕ
  pub heartbeats : List Sent

-- `protocol.SchemaVersion`
abbrev pub current_version : ℕ
current_version = 1

-- A body is missing if it is malformed or too large.
pub record IngestRequest : Type 0 where
  pub is_post : Bool
  pub authorization : Text
  pub body : Option IngestBatch

pub data Reply : Type 0 where
  refused : ℕ → Text → Reply
  accepted : ℕ → Reply

abbrev pub status_of : Reply → ℕ
status_of (refused status message) = status
status_of (accepted n) = 200

-- `bearerToken`
abbrev pub bearer : Text
bearer = codes "Bearer "

unfoldable pub bearer_token : Text → Option Text
bearer_token h =
    if leb (length h) (length bearer) || not (text_eq (take (length bearer) h) bearer)
    then none
    else some (drop (length bearer) h)

-- The replies to the errors of `DeviceIDByToken`.
abbrev pub auth_reply : Error → Reply
auth_reply revoked = refused 403 (codes "device token revoked")
auth_reply unknown_token = refused 401 (codes "invalid device token")
auth_reply _ = refused 500 (codes "storage error")

abbrev pub insert_reply : Store → Result (ℕ × Store) → Reply × Store
insert_reply s (err e) = (refused 500 (codes "storage error"), s)
insert_reply s (ok (n, t)) = (accepted n, t)

-- What follows the authentication, for the device of that identifier.
unfoldable pub ingest_body : ℕ → Text → Option IngestBatch → Store → Reply × Store
ingest_body now id none s = (refused 400 (codes "malformed JSON body"), s)
ingest_body now id (some batch) s =
    if not (batch.schema_version == current_version)
    then (refused 400 (codes "unsupported schema_version"), s)
    else insert_reply s (insert_heartbeats now id batch.device_sent_at batch.heartbeats s)

abbrev pub ingest_as : ℕ → Result Text → Option IngestBatch → Store → Reply × Store
ingest_as now (err e) body s = (auth_reply e, s)
ingest_as now (ok id) body s = ingest_body now id body s

abbrev pub ingest_token :
    (Text → Text) → ℕ → Option Text → Option IngestBatch → Store → Reply × Store
ingest_token hash_token now none body s = (refused 401 (codes "missing bearer token"), s)
ingest_token hash_token now (some token) body s =
    ingest_as now (device_id_by_token hash_token token s) body s

-- `IngestHandler`, at a time in seconds; the first argument is `hashToken`.
unfoldable pub ingest : (Text → Text) → ℕ → IngestRequest → Store → Reply × Store
unfolding bearer_token ingest_body
ingest hash_token now r s =
    if not r.is_post
    then (refused 405 (codes "method not allowed"), s)
    else ingest_token hash_token now (bearer_token r.authorization) r.body s
