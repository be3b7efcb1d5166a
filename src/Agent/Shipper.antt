-- ===== src/Agent/Shipper.antt =====
-- `Shipper` of internal/agent/shipper.go: one upload of the oldest heartbeats, and how long to wait
-- for the next. What the server answers is an argument.
pub mod Backoff
pub mod Sending
use screwlogger.Base.{
  ℕ, ◌+◌, ◌-◌, Bool, true, false, Option, none, some, List, [], ◌∷◌, ◌++◌, leb, ◌==◌, if◌then◌else◌,
  length, get_elem?, is_empty, Text, codes,
}
use screwlogger.Server.Store.{Sent}
use screwlogger.Server.Ingest.{IngestBatch, current_version}
use screwlogger.Agent.Buffer.{Json, Buffer, unacked, ack}

-- `batchLimit`
abbrev pub batch_limit : ℕ
batch_limit = 500

-- The answer to a request: none, for an error of the network or a timeout, or a status.
pub data FlushAnswer : Type 0 where
  unanswered : FlushAnswer
  status : ℕ → FlushAnswer

abbrev pub batch_of : ℕ → List Sent → IngestBatch
batch_of sent_at hbs = record {
  schema_version = current_version;
  device_sent_at = sent_at;
  heartbeats = hbs;
}

-- The batch that `Flush` posts, if it posts one.
abbrev pub posted : ℕ → Option (List Sent) → Option IngestBatch
posted sent_at none = none
posted sent_at (some []) = none
posted sent_at (some (h ∷ hs)) = some (batch_of sent_at (h ∷ hs))

-- The token of the request, as the header `Authorization`.
abbrev pub authorization_header : Text → Text
authorization_header token = codes "Bearer " ++ token

-- The number of heartbeats that were delivered, or `none` for an error.
abbrev pub after_ack : ℕ → Buffer × Bool → Buffer × Option ℕ
after_ack n (b, true) = (b, some n)
after_ack n (b, false) = (b, none)

module _ (j : Json) where
  unfoldable pub flush_batch : ℕ → Buffer → Option IngestBatch
  flush_batch sent_at b = posted sent_at (unacked j batch_limit b)

  -- The end of `Flush` for a batch of heartbeats that was posted.
  abbrev pub after_answer : FlushAnswer → List Sent → Buffer → Buffer × Option ℕ
  after_answer unanswered hbs b = (b, none)
  after_answer (status s) hbs b =
      if s == 200 then after_ack (length hbs) (ack j (length hbs) b) else (b, none)

  -- `Flush`
  unfoldable pub flush : FlushAnswer → Buffer → Buffer × Option ℕ
  flush a b = elim (unacked j batch_limit b) [
    | none ↦ (b, none)
    | some hbs ↦ if is_empty hbs then (b, some 0) else after_answer a hbs b
  ]

-- Seconds; `HealthyFlushInterval` and `BackoffSteps`
abbrev pub healthy_flush_interval : ℕ
healthy_flush_interval = 60

abbrev pub backoff_steps : List ℕ
backoff_steps = 15 ∷ 60 ∷ 300 ∷ []

abbrev or_zero : Option ℕ → ℕ
or_zero none = 0
or_zero (some n) = n

-- `NextInterval`, on the field `failures`: the interval, and the field afterwards.
unfoldable pub next_interval : Bool → ℕ → ℕ × ℕ
next_interval failed failures =
    let step = if leb (length backoff_steps) failures then length backoff_steps - 1 else failures in
    if failed
    then (or_zero (get_elem? backoff_steps step), failures + 1)
    else (healthy_flush_interval, 0)
