-- ===== src/Server/Ingest/Refused.antt =====
-- Requests that internal/server/ingest.go refuses, and those that it accepts.
use screwlogger.Base.{
  ℕ, ◌≡◌, refl, sym, ap₂, ◌∙◌, ◌≢◌, inl, inr, true, Option, none, some, List, [], ◌∷◌, ◌++◌, arith,
  ◌==◌, Bool-cases, length, take, drop, take-append-drop, IsIn, Text, codes, text_eq, text_eq_iff,
}
use mathlib.Core.Path.{subst}
use screwlogger.Server.Store.{
  Device, by_hash, token_result, Store, Error, unknown_token, revoked, unknown_device, not_revoked,
  foreign_key, Result, ok, err, device_id_by_token, insert_heartbeats,
}
use screwlogger.Server.Ingest.{
  bearer, IngestBatch, current_version, IngestRequest, Reply, refused, accepted, bearer_token,
  auth_reply, insert_reply, ingest_body, ingest_as, ingest_token, ingest,
}

-- What has happened when a batch was accepted.
abbrev pub IsAccepted : (Text → Text) → ℕ → IngestRequest → Store → ℕ → Store → Type 0
IsAccepted hash_token now r s n t =
    (token : Text) × (id : Text) × (batch : IngestBatch) × (bearer_token r.authorization
      ≡ some token)
    × (device_id_by_token hash_token token s ≡ ok id)
    × (r.body ≡ some batch)
    × (batch.schema_version ≡ current_version)
    × (insert_heartbeats now id batch.device_sent_at batch.heartbeats s ≡ ok (n, t))

-- Either outcome of a handler: refused without a change, or accepted.
abbrev pub Outcome : (Text → Text) → ℕ → IngestRequest → Store → Reply × Store → Type 0
Outcome hash_token now r s (refused status message, t) = (status ≢ 200) × (t ≡ s)
Outcome hash_token now r s (accepted n, t) = IsAccepted hash_token now r s n t

insert_reply-Outcome :
    (hash_token : Text → Text) (now : ℕ) (r : IngestRequest) (s : Store) (token id : Text)
    (batch : IngestBatch) (o : Result (ℕ × Store))
    → bearer_token r.authorization ≡ some token
    → device_id_by_token hash_token token s ≡ ok id
    → r.body ≡ some batch
    → batch.schema_version ≡ current_version
    → insert_heartbeats now id batch.device_sent_at batch.heartbeats s ≡ o
    → Outcome hash_token now r s (insert_reply s o)
insert_reply-Outcome hash_token now r s token id batch (err e) a b c v i = (omega arith, refl)
insert_reply-Outcome hash_token now r s token id batch (ok (n, t)) a b c v i =
    (token, id, batch, a, b, c, v, i)

ingest_body-Outcome :
    (hash_token : Text → Text) (now : ℕ) (r : IngestRequest) (s : Store) (token id : Text)
    (body : Option IngestBatch)
    → bearer_token r.authorization ≡ some token
    → device_id_by_token hash_token token s ≡ ok id
    → r.body ≡ body
    → Outcome hash_token now r s (ingest_body now id body s)
unfolding ingest_body
ingest_body-Outcome hash_token now r s token id none a b c = (omega arith, refl)
ingest_body-Outcome hash_token now r s token id (some batch) a b c =
    elim (Bool-cases (batch.schema_version == current_version)) [
      | inl e ↦
          rw e (insert_reply-Outcome hash_token now r s token id batch _ a b c (ground arith) refl)
      | inr e ↦ rw e (omega arith, refl)
    ]

auth_reply-Outcome :
    (hash_token : Text → Text) (now : ℕ) (r : IngestRequest) (s : Store) (e : Error)
    → Outcome hash_token now r s (auth_reply e, s)
auth_reply-Outcome hash_token now r s unknown_token = (omega arith, refl)
auth_reply-Outcome hash_token now r s revoked = (omega arith, refl)
auth_reply-Outcome hash_token now r s unknown_device = (omega arith, refl)
auth_reply-Outcome hash_token now r s not_revoked = (omega arith, refl)
auth_reply-Outcome hash_token now r s foreign_key = (omega arith, refl)

ingest_as-Outcome :
    (hash_token : Text → Text) (now : ℕ) (r : IngestRequest) (s : Store) (token : Text)
    (o : Result Text)
    → bearer_token r.authorization ≡ some token
    → device_id_by_token hash_token token s ≡ o
    → Outcome hash_token now r s (ingest_as now o r.body s)
ingest_as-Outcome hash_token now r s token (err e) a b = auth_reply-Outcome hash_token now r s e
ingest_as-Outcome hash_token now r s token (ok id) a b =
    ingest_body-Outcome hash_token now r s token id r.body a b refl

ingest_token-Outcome :
    (hash_token : Text → Text) (now : ℕ) (r : IngestRequest) (s : Store) (o : Option Text)
    → bearer_token r.authorization ≡ o
    → Outcome hash_token now r s (ingest_token hash_token now o r.body s)
ingest_token-Outcome hash_token now r s none a = (omega arith, refl)
ingest_token-Outcome hash_token now r s (some token) a =
    ingest_as-Outcome hash_token now r s token (device_id_by_token hash_token token s) a refl

pub ingest-Outcome :
    (hash_token : Text → Text) (now : ℕ) (r : IngestRequest) (s : Store)
    → Outcome hash_token now r s (ingest hash_token now r s)
unfolding ingest
ingest-Outcome hash_token now r s = elim (Bool-cases r.is_post) [
  | inl e ↦
      rw (e, ingest) (ingest_token-Outcome hash_token now r s (bearer_token r.authorization) refl)
  | inr e ↦ rw (e, ingest) (omega arith, refl)
]

-- A row of the table has the hash of that token, that identifier and no time of revocation.
abbrev pub IsActive : (Text → Text) → Text → Text → List Device → Type 0
IsActive hash_token token id ds =
    (d : Device) × (IsIn d ds)
    × (d.token_hash ≡ hash_token token)
    × (d.id ≡ id)
    × (d.revoked_at ≡ none)

by_hash-IsActive :
    (h : Text) (ds : List Device) (d : Device)
    → by_hash h ds ≡ some d
    → IsIn d ds × (d.token_hash ≡ h)
unfolding by_hash
by_hash-IsActive h [] d e = cc
by_hash-IsActive h (x ∷ ds) d e = elim (Bool-cases (text_eq x.token_hash h)) [
  | inl f ↦
      let same : x ≡ d = ground (arith, e, f) in
      (inl same, subst (λ (y : Device). y.token_hash ≡ h) same ((text_eq_iff x.token_hash h).0 f))
  | inr f ↦ let (i, k) = by_hash-IsActive h ds d (ground (arith, e, f)) in (inr i, k)
]

token_result-IsActive :
    (hash_token : Text → Text) (token id : Text) (ds : List Device) (o : Option Device)
    → by_hash (hash_token token) ds ≡ o
    → token_result o ≡ ok id
    → IsActive hash_token token id ds
token_result-IsActive hash_token token id ds none e f = cc
token_result-IsActive hash_token token id ds (some d) e f =
    let (i, k) = by_hash-IsActive (hash_token token) ds d e in
    (d, i, k, ground (arith, f), ground (arith, f))

-- Either outcome of the endpoint: refused without a change, or accepted from an active device.
abbrev pub Verdict : (Text → Text) → ℕ → IngestRequest → Store → Reply × Store → Type 0
Verdict hash_token now r s (refused status message, t) = (status ≢ 200) × (t ≡ s)
Verdict hash_token now r s (accepted n, t) =
    (token : Text) × (id : Text) × (batch : IngestBatch) × (r.authorization
      ≡ codes "Bearer " ++ token)
    × (IsActive hash_token token id s.devices)
    × (r.body ≡ some batch)
    × (batch.schema_version ≡ 1)
    × (insert_heartbeats now id batch.device_sent_at batch.heartbeats s ≡ ok (n, t))

bearer_token_lem : (h token : Text) → bearer_token h ≡ some token → h ≡ codes "Bearer " ++ token
unfolding bearer_token
bearer_token_lem h token e =
    let f : text_eq (take (length bearer) h) bearer ≡ true = ground (arith, e) in
    let g : drop (length bearer) h ≡ token = ground (arith, e) in
    sym (take-append-drop (length bearer) h) ∙ ap₂ (λ a b. a ++ b) ((text_eq_iff _ _).0 f) g

Outcome-Verdict :
    (hash_token : Text → Text) (now : ℕ) (r : IngestRequest) (s : Store) (o : Reply × Store)
    → Outcome hash_token now r s o
    → Verdict hash_token now r s o
unfolding device_id_by_token
Outcome-Verdict hash_token now r s (refused status message, t) h = h
Outcome-Verdict hash_token now r s (accepted n, t) (token, id, batch, a, b, c, v, i) = (
  token,
  id,
  batch,
  bearer_token_lem r.authorization token a,
  token_result-IsActive hash_token token id s.devices _ refl b,
  c,
  v,
  i,
)

-- A request that is refused, with whatever status, changes nothing in the store, and its status is
-- not 200. One that is accepted has the header "Bearer " and a token. The hash of this token is that of
-- a row of the table of devices which has no time of revocation. The batch has the schema version 1,
-- and the store is changed by `InsertHeartbeats` for the device of that row alone.
pub ingest-Verdict :
    (hash_token : Text → Text) (now : ℕ) (r : IngestRequest) (s : Store)
    → Verdict hash_token now r s (ingest hash_token now r s)
ingest-Verdict hash_token now r s =
    Outcome-Verdict hash_token now r s (ingest hash_token now r s)
      (ingest-Outcome hash_token now r s)
