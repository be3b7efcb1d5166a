-- ===== src/Server/QueryApi/Revoked.antt =====
-- API keys of internal/server/apikeys.go that have been revoked.
use screwlogger.Base.{
  ℕ, ◌<◌, ◌≡◌, refl, ap, ◌∙◌, inl, inr, false, Option, some, List, [], ◌∷◌, ◌++◌, arith, ltb,
  Bool-cases, length, take, take_all, Text, codes, text_eq, text_eq_iff, text_eq_refl, ℤ,
}
use screwlogger.Server.Store.{Store}
use screwlogger.Server.Sessions.{failed}
use screwlogger.Server.Keys.{
  ApiKey, key_by_hash, resolve_api_key, revoke_api_key_by_prefix, key_row,
}
use screwlogger.Server.Ingest.{bearer}
use screwlogger.Server.Ingest.Accepted.{bearer_token_lem}
use screwlogger.Server.QueryApi.{QueryRequest, api_answer, query_api}

take_short : (n : ℕ) (s : Text) → ltb n (length s) ≡ false → take n s ≡ s
take_short n s h = take_all n s (ground (arith, h))

-- The prefix that the list shows.
hash_prefix_lem : (k : ApiKey) → (key_row k).hash_prefix ≡ take 8 k.key_hash
hash_prefix_lem k = elim (Bool-cases (ltb 8 (length k.key_hash))) [
  | inl e ↦ rw e refl
  | inr e ↦ rw (e, take_short 8 k.key_hash e) refl
]

key_by_hash-revoke :
    (h : Text) (now : ℕ) (ks : List ApiKey) (k : ApiKey)
    → key_by_hash h ks ≡ some k
    → key_by_hash h (revoke_api_key_by_prefix now (take 8 h) ks).1
      ≡ some (record k { revoked_at = some now })
unfolding key_by_hash revoke_api_key_by_prefix
key_by_hash-revoke h now [] k e = cc
key_by_hash-revoke h now (x ∷ ks) k e = elim (Bool-cases (text_eq x.key_hash h)) [
  | inl f ↦ ground (
    arith,
    e,
    f,
    text_eq_iff x.key_hash h,
    text_eq_refl (take 8 h),
    ap (take 8) ((text_eq_iff x.key_hash h).0 f),
  )
  | inr f ↦ ground (arith, e, f, key_by_hash-revoke h now ks k)
]

key_by_hash-hash :
    (h : Text) (ks : List ApiKey) (k : ApiKey) → key_by_hash h ks ≡ some k → k.key_hash ≡ h
unfolding key_by_hash
key_by_hash-hash h [] k e = cc
key_by_hash-hash h (x ∷ ks) k e =
    ground (arith, e, key_by_hash-hash h ks k, text_eq_iff x.key_hash h)

-- The prefix that the list of keys shows is enough to revoke a key: after a revocation by it the query
-- API answers every request with that key with 403, but for the preflight requests.
pub query_api-revoke :
    (parse_int : Text → Option ℤ) (hash_token : Text → Text) (now later : ℕ) (token : Text)
    (r : QueryRequest) (s : Store) (keys : List ApiKey) (k : ApiKey)
    → 0 < length token
    → key_by_hash (hash_token token) keys ≡ some k
    → query_api parse_int hash_token later false
        (bearer ++ token)
        r
        s
        (revoke_api_key_by_prefix now (key_row k).hash_prefix keys).1
      ≡ api_answer (failed 403 (codes "api key revoked"))
unfolding query_api resolve_api_key
query_api-revoke parse_int hash_token now later token r s keys k some_token e =
    let prefix : (key_row k).hash_prefix ≡ take 8 (hash_token token) =
      hash_prefix_lem k ∙ ap (take 8) (key_by_hash-hash (hash_token token) keys k e) in
    rw (
      query_api,
      bearer_token_lem token some_token,
      prefix,
      resolve_api_key,
      key_by_hash-revoke (hash_token token) now keys k e,
    )
