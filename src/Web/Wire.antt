-- ===== src/Web/Wire.antt =====
-- What internal/server/web/app.js reads of the answers of the admin API: the fields of the JSON
-- objects that its code names (internal/server/query_api.go, query.go and admin_api.go write them).
-- A number is a whole number of seconds since 1970, as the server sends it.
use screwlogger.Base.{ℕ, Text, Option, Bool}

pub record Device : Type 0 where
  pub id : Text
  pub name : Text
  pub last_seen : Option ℕ
  pub status : Text

pub record Rule : Type 0 where
  pub pattern : Text
  pub category : Text
  pub updated_at : ℕ

pub record Key : Type 0 where
  pub label : Text
  pub created_at : ℕ
  pub revoked_at : Option ℕ
  pub hash_prefix : Text

-- An entry of the `buckets` of a usage answer.
pub record Bucket : Type 0 where
  pub key : Text
  pub seconds : ℕ

pub record Ratio : Type 0 where
  pub active_seconds : ℕ
  pub idle_seconds : ℕ
  pub total_seconds : ℕ

-- A raw heartbeat.
pub record Event : Type 0 where
  pub ts : ℕ
  pub active : Bool
