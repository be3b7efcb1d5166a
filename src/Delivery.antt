-- ===== src/Delivery.antt =====
-- The way of a heartbeat from the buffer of an agent (internal/agent) to the table of the server
-- (internal/server): uploads that fail before or after the server has stored them, restarts of the
-- agent, and whatever other requests the server answers in between.
pub mod Stored
pub mod Uploads
pub mod Safe
pub mod Rounds
mod Examples
use screwlogger.Server.Devices.{create_device}
use screwlogger.Server.Rules.{recategorize}
use screwlogger.Server.Store.{
  rename_device, revoke_device, delete_device, has_beat, ok, Sent, Store,
}
use screwlogger.Server.Store.Delete.{beats_of}
use screwlogger.Base.{
  ℕ, ◌-◌, ◌/◌, ◌≤◌, ◌≡◌, Bool, true, Option, none, some, List, [], ◌∷◌, ◌++◌, ltb, leb,
  if◌then◌else◌, length, take, Text,
}
use screwlogger.Server.Ingest.{IngestBatch, IngestRequest, Reply, ingest, status_of}
use screwlogger.Agent.Buffer.{Json, Buffer, open_buffer, all, append, unacked}
use screwlogger.Agent.Buffer.Lines.{Fits}
use screwlogger.Agent.Shipper.{
  FlushAnswer, unanswered, status, authorization_header, flush_batch, flush,
}

-- The buffer of the agent, the store of the server, all heartbeats that were appended so far, and those
-- of them that were thrown away: by the agent because its buffer was full, or from the table of the
-- server together with a device.
pub record World : Type 0 where
  pub buffer : Buffer
  pub store : Store
  pub log : List Sent
  pub discarded : List Sent

-- What `rotateIfFull` drops: the older half of what has not been acknowledged, if that is too large.
unfoldable pub overflowed : Json → Buffer → List Sent
unfolding unacked
overflowed j b =
    if leb (b.size - b.acked_off) b.max_bytes
    then []
    else elim (unacked j all b) [ none ↦ [] | some q ↦ take (length q / 2) q ]

-- `maxIngestBody`
abbrev pub max_body : ℕ
max_body = 1048576

-- What the server decodes of a batch: nothing if its JSON text is longer than `MaxBytesReader` lets
-- through.
abbrev pub received : Json → Option IngestBatch → Option IngestBatch
received j none = none
received j (some batch) = if ltb max_body (j.batch_size batch) then none else some batch

-- The request that carries a batch.
abbrev pub batch_request : Json → Text → Option IngestBatch → IngestRequest
batch_request j token batch = record {
  is_post = true;
  authorization = authorization_header token;
  body = received j batch;
}

-- What the server makes of the batch that the agent would post.
abbrev pub served : Json → (Text → Text) → Text → ℕ → ℕ → World → Reply × Store
served j hash_token token sent_at now w =
    ingest hash_token now (batch_request j token (flush_batch j sent_at w.buffer)) w.store

-- `none` for the store if there is nothing to post.
abbrev pub store_after : Option IngestBatch → Store → Store → Store
store_after none old new = old
store_after (some batch) old new = new

-- The heartbeats whose rows are those of a device.
abbrev pub removed_with : Text → Store → List Sent → List Sent
removed_with id s [] = []
removed_with id s (h ∷ hs) =
    if has_beat h.id (beats_of id s.heartbeats)
    then h ∷ removed_with id s hs
    else removed_with id s hs

-- What other requests do to the store: those of any agent, and those of an administrator, but for the
-- deletion of a device.
pub data Elsewhere (hash_token : Text → Text) (s : Store) : Store → Type 0 where
  ingested : (now : ℕ) (r : IngestRequest) → Elsewhere hash_token s (ingest hash_token now r s).1
  enrolled :
      (now : ℕ) (id random name secret : Text) (t : Store)
      → create_device hash_token now id random name s ≡ some (secret, t)
      → Elsewhere hash_token s t
  revoked_one : (now : ℕ) (id : Text) → Elsewhere hash_token s (revoke_device now id s)
  renamed_one :
      (id name : Text) (t : Store) → rename_device id name s ≡ ok t → Elsewhere hash_token s t
  categorized :
      (matches : Text → Text → Bool) (pattern category : Text)
      → Elsewhere hash_token s (recategorize matches pattern category s).1

-- One event. The file stays below 2^30 bytes.
pub data DeliveryEvent (j : Json) (hash_token : Text → Text) (token : Text) (w : World)
    : World → Type 0 where
  appended :
      (h : Sent) (c : Buffer)
      → Fits j h
      → append j h w.buffer ≡ some c
      → length c.file ≤ all
      → DeliveryEvent j hash_token token w (record w {
        buffer = c;
        log = w.log ++ h ∷ [];
        discarded = w.discarded ++ overflowed j w.buffer;
      })
  -- a request that does not reach the server
  lost : DeliveryEvent j hash_token token w (record w { buffer = (flush j unanswered w.buffer).0 })
  -- a request that the server handles, but whose answer does not arrive
  unheard :
      (sent_at now : ℕ)
      → DeliveryEvent j hash_token token w (record w {
        buffer = (flush j unanswered w.buffer).0;
        store =
            store_after
              (flush_batch j sent_at w.buffer)
              w.store
              (served j hash_token token sent_at now w).1;
      })
  -- a request that is answered
  heard :
      (sent_at now : ℕ)
      → DeliveryEvent j hash_token token w (record w {
        buffer =
            (flush j (status (status_of (served j hash_token token sent_at now w).0)) w.buffer).0;
        store =
            store_after
              (flush_batch j sent_at w.buffer)
              w.store
              (served j hash_token token sent_at now w).1;
      })
  -- a change of the store by another request
  elsewhere :
      (t : Store)
      → Elsewhere hash_token w.store t
      → DeliveryEvent j hash_token token w (record w { store = t })
  -- the deletion of a device
  deleted_one :
      (id : Text) (t : Store)
      → delete_device id w.store ≡ ok t
      → DeliveryEvent j hash_token token w
          (record w { store = t; discarded = w.discarded ++ removed_with id w.store w.log })
  reopened :
      (max : ℕ)
      → DeliveryEvent j hash_token token w (record w { buffer = open_buffer max w.buffer.file })

-- The agent starts with an empty file.
abbrev pub beginning : ℕ → Store → World
beginning max s = record { buffer = open_buffer max []; store = s; log = []; discarded = [] }

-- The states that come about by events.
pub data Run (j : Json) (hash_token : Text → Text) (token : Text) (s : Store) : World → Type 0 where
  begin : (max : ℕ) → Run j hash_token token s (beginning max s)
  then_event :
      {v w : World}
      → Run j hash_token token s v
      → DeliveryEvent j hash_token token v w
      → Run j hash_token token s w
