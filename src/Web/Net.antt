-- ===== src/Web/Net.antt =====
-- Requests and answers: `api` of internal/server/web/app.js. The server and the network are the
-- environment: a request waits until an answer is delivered, which may be any answer.
use screwlogger.Base.{
  ℕ, Bool, false, ◌&&◌, Option, none, some, List, [], ◌∷◌, leb, Text, codes, concat,
}
use screwlogger.Web.Wire.{Device, Rule, Key, Bucket, Ratio, Event}

pub data Method : Type 0 where
  get post put delete : Method

-- The JSON objects that the page sends.
pub data Body : Type 0 where
  password_body name_body pattern_body label_body : Text → Body
  rule_body : Text → Text → Bool → Body

pub record Request : Type 0 where
  pub method : Method
  pub path : Text
  pub content_type : Option Text
  pub body : Option Body

-- `init` of `api`: same-origin credentials always, the content type only with a body.
unfoldable pub make_request : Method → Text → Option Body → Request
make_request m path none = record { method = m; path = path; content_type = none; body = none }
make_request m path (some b) = record {
  method = m;
  path = path;
  content_type = some (codes "application/json");
  body = some b;
}

-- What the page may find in the data of an answer.
pub data Payload : Type 0 where
  nothing : Payload
  error : Text → Payload
  devices : List Device → Payload
  rules : List Rule → Payload
  keys : List Key → Payload
  token key : Text → Payload
  recategorized : ℕ → Payload
  buckets : List Bucket → Payload
  ratio : Ratio → Payload
  events : List Event → Payload

-- A status with its data; or a failure of the network or of the decoding, with its message.
pub data Answer : Type 0 where
  answered : ℕ → Payload → Answer
  failed : Text → Answer

-- What `api` resolves to.
pub record Response : Type 0 where
  pub ok : Bool
  pub status : ℕ
  pub payload : Payload

-- The two ends of the chain in `api`; `res.ok` is a status from 200 to 299.
unfoldable pub settle : Answer → Response
settle (answered status d) = record {
  ok = leb 200 status && leb status 299;
  status = status;
  payload = d;
}
settle (failed message) = record { ok = false; status = 0; payload = error message }

-- The message that `api` shows, if the request failed.
unfoldable pub failure_message : Answer → Option Text
failure_message (answered status d) = none
failure_message (failed message) = some (concat (codes "Network error: " ∷ message ∷ []))

-- `res.data || []` and the like, by the field that is read.
abbrev pub devices_of : Payload → List Device
devices_of (devices l) = l
devices_of _ = []

abbrev pub rules_of : Payload → List Rule
rules_of (rules l) = l
rules_of _ = []

abbrev pub keys_of : Payload → List Key
keys_of (keys l) = l
keys_of _ = []

abbrev pub buckets_of : Payload → List Bucket
buckets_of (buckets l) = l
buckets_of _ = []

abbrev pub events_of : Payload → List Event
events_of (events l) = l
events_of _ = []

abbrev pub ratio_of : Payload → Option Ratio
ratio_of (ratio r) = some r
ratio_of _ = none

-- `res.data && res.data.error`
abbrev pub error_of : Payload → Text
error_of (error m) = m
error_of _ = []

-- A missing field is put into an input as "undefined".
abbrev pub token_of : Payload → Text
token_of (token t) = t
token_of _ = codes "undefined"

abbrev pub key_of : Payload → Text
key_of (key t) = t
key_of _ = codes "undefined"

abbrev pub recategorized_of : Payload → ℕ
recategorized_of (recategorized n) = n
recategorized_of _ = 0
