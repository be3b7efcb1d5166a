-- ===== src/Server/Ingest/Accepted.antt =====
-- Requests that internal/server/ingest.go accepts, and what its insertions leave as it was: the token
-- of a device.
use screwlogger.Base.{
  ℕ, ◌<◌, ◌≡◌, refl, ap, ◌∙◌, true, false, ◌&&◌, some, List, [], ◌∷◌, ◌++◌, map, arith, ltb, ◌==◌,
  length, length-append, take, drop, Text, text_eq_refl,
}
use screwlogger.Server.Store.{
  Device, Sent, Store, ok, is_missing, update, by_id, by_hash, token_result, device_id_by_token,
  insert_heartbeats, insert_or_ignore, beat_of,
}
use screwlogger.Server.Store.Orphans.{insert_heartbeats-devices}
use screwlogger.Server.Ingest.{
  IngestBatch, current_version, accepted, bearer, bearer_token, ingest_body, ingest,
}

-- The token is that of a device that is not revoked.
abbrev pub IsEnrolled : (Text → Text) → Text → Store → Text → Type 0
IsEnrolled hash_token token s id = device_id_by_token hash_token token s ≡ ok id

take_prefix : (p s : Text) → take (length p) (p ++ s) ≡ p
take_prefix [] s = refl
take_prefix (c ∷ p) s = ap (c ∷◌) (take_prefix p s)

drop_prefix : (p s : Text) → drop (length p) (p ++ s) ≡ s
drop_prefix [] s = refl
drop_prefix (c ∷ p) s = drop_prefix p s

pub bearer_token_lem :
    (token : Text) → 0 < length token → bearer_token (bearer ++ token) ≡ some token
unfolding bearer_token
bearer_token_lem token h = ground (
  arith,
  length-append bearer token,
  take_prefix bearer token,
  drop_prefix bearer token,
  text_eq_refl bearer,
)

-- The row that the token is found in can also be found by its identifier.
by_hash-by_id :
    (h id : Text) (ds : List Device)
    → token_result (by_hash h ds) ≡ ok id
    → is_missing (by_id id ds) ≡ false
unfolding by_hash by_id
by_hash-by_id h id [] e = cc
by_hash-by_id h id (d ∷ ds) e = ground (arith, by_hash-by_id h id ds, text_eq_refl id)

token_result-update :
    (h id : Text) (now : ℕ) (ds : List Device)
    → token_result (by_hash h (update id (λ d. record d { last_seen = some now }) ds))
      ≡ token_result (by_hash h ds)
unfolding by_hash update
token_result-update h id now [] = refl
token_result-update h id now (d ∷ ds) = ground (arith, token_result-update h id now ds)

-- For the identifier of a stored device an insertion succeeds.
insert_heartbeats-ok :
    (now sent_at : ℕ) (id : Text) (hbs : List Sent) (s : Store)
    → is_missing (by_id id s.devices) ≡ false
    → (n : ℕ) × (t : Store) × (insert_heartbeats now id sent_at hbs s ≡ ok (n, t))
unfolding insert_heartbeats
insert_heartbeats-ok now sent_at id hbs s e =
    let r = insert_or_ignore (map (beat_of id sent_at now) hbs) s.heartbeats in
    let there : (ltb 0 r.0 && is_missing (by_id id s.devices)) ≡ false = ground (arith, e) in
    (
      r.0,
      record {
        devices = update id (λ d. record d { last_seen = some now }) s.devices;
        heartbeats = r.1;
      },
      rw (insert_heartbeats, there),
    )

-- A batch with the token of an enrolled device is accepted, and the token stays good.
pub ingest-ok :
    (hash_token : Text → Text) (token id : Text) (now : ℕ) (batch : IngestBatch) (s : Store)
    → 0 < length token
    → batch.schema_version ≡ current_version
    → IsEnrolled hash_token token s id
    → (n : ℕ) × (t : Store) × (ingest hash_token now
          (record { is_post = true; authorization = bearer ++ token; body = some batch })
          s
        ≡ (accepted n, t))
      × IsEnrolled hash_token token t id
unfolding ingest ingest_body device_id_by_token
ingest-ok hash_token token id now batch s h v e =
    let there = by_hash-by_id (hash_token token) id s.devices e in
    let (n, t, i) = insert_heartbeats-ok now batch.device_sent_at id batch.heartbeats s there in
    let current : (batch.schema_version == current_version) ≡ true = ground (arith, v) in
    (
      n,
      t,
      rw (bearer_token_lem token h, device_id_by_token, e, ingest_body, current, i),
      ap (λ ds. token_result (by_hash (hash_token token) ds))
            (insert_heartbeats-devices now batch.device_sent_at id batch.heartbeats s t n i)
          ∙ token_result-update (hash_token token) id now s.devices
          ∙ e,
    )
