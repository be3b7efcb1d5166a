-- ===== src/Server/Keys/Life.antt =====
-- The life of an API key in internal/server/apikeys.go: `CreateAPIKey`, `ResolveAPIKey`, `RevokeAPIKey`.
use screwlogger.Base.{
  ℕ, ◌≡◌, refl, sym, ap, ◌∙◌, ◌≢◌, inl, inr, true, Option, none, some, List, [], ◌∷◌, ◌++◌, arith,
  Bool-cases, Text, codes, text_eq_iff, text_eq_refl,
}
use screwlogger.Server.Keys.{
  ApiKey, key_by_hash, is_none, create_api_key, resolve_api_key, resolved, scopes_of, unresolved,
  revoked_key, revoke_api_key,
}

key_by_hash-append_new :
    (h : Text) (ks : List ApiKey) (k : ApiKey)
    → key_by_hash h ks ≡ none
    → key_by_hash h (ks ++ k ∷ []) ≡ key_by_hash h (k ∷ [])
unfolding key_by_hash
key_by_hash-append_new h [] k e = refl
key_by_hash-append_new h (x ∷ ks) k e = ground (arith, key_by_hash-append_new h ks k, e)

key_by_hash-append_ne :
    (h : Text) (ks : List ApiKey) (k : ApiKey)
    → k.key_hash ≢ h
    → key_by_hash h (ks ++ k ∷ []) ≡ key_by_hash h ks
unfolding key_by_hash
key_by_hash-append_ne h [] k ne = ground (arith, text_eq_iff k.key_hash h, ne)
key_by_hash-append_ne h (x ∷ ks) k ne = ground (arith, key_by_hash-append_ne h ks k ne)

key_by_hash-revoke_api_key :
    (hash_token : Text → Text) (now : ℕ) (token : Text) (ks : List ApiKey) (k : ApiKey)
    → key_by_hash (hash_token token) ks ≡ some k
    → key_by_hash (hash_token token) (revoke_api_key hash_token now token ks)
      ≡ some (record k { revoked_at = some now })
unfolding key_by_hash revoke_api_key
key_by_hash-revoke_api_key hash_token now token [] k e = absurd (ground (arith, e))
key_by_hash-revoke_api_key hash_token now token (x ∷ ks) k e =
    ground (arith, key_by_hash-revoke_api_key hash_token now token ks k, e)

key_by_hash-revoke_api_key_ne :
    (hash_token : Text → Text) (now : ℕ) (token h : Text) (ks : List ApiKey)
    → hash_token token ≢ h
    → key_by_hash h (revoke_api_key hash_token now token ks) ≡ key_by_hash h ks
unfolding key_by_hash revoke_api_key
key_by_hash-revoke_api_key_ne hash_token now token h [] ne = refl
key_by_hash-revoke_api_key_ne hash_token now token h (x ∷ ks) ne = ground (
  arith,
  key_by_hash-revoke_api_key_ne hash_token now token h ks ne,
  text_eq_iff x.key_hash (hash_token token),
  text_eq_iff x.key_hash h,
  ne,
)

none_of : (o : Option ApiKey) → is_none o ≡ true → o ≡ none
none_of none e = refl
none_of (some k) e = absurd (ground (arith, e))

-- A key that has been created may read. Once it is revoked it is refused as revoked, and every key with
-- another hash is resolved as before its creation.
pub create_api_key_lem :
    (hash_token : Text → Text) (now later : ℕ) (random label token : Text) (keys ls : List ApiKey)
    → create_api_key hash_token now random label keys ≡ some (token, ls)
    → (resolve_api_key hash_token token ls ≡ scopes_of (codes "read"))
      × (resolve_api_key hash_token token (revoke_api_key hash_token later token ls)
          ≡ unresolved revoked_key)
      × ((other : Text)
          → hash_token token ≢ hash_token other
          → resolve_api_key hash_token other (revoke_api_key hash_token later token ls)
            ≡ resolve_api_key hash_token other keys)
unfolding create_api_key resolve_api_key
create_api_key_lem hash_token now later random label token keys ls e =
    let own = codes "ak_" ++ random in
    let k : ApiKey = record {
      key_hash = hash_token own;
      label = label;
      scopes = codes "read";
      created_at = now;
      revoked_at = none;
    } in
    elim (Bool-cases (is_none (key_by_hash (hash_token own) keys))) [
      | inl f ↦
          let same : own ≡ token = ground (arith, e, f) in
          let table : keys ++ k ∷ [] ≡ ls = ground (arith, e, f) in
          let new = none_of (key_by_hash (hash_token own) keys) f in
          let found : key_by_hash (hash_token own) (keys ++ k ∷ []) ≡ some k =
            key_by_hash-append_new (hash_token own) keys k new
            ∙ unfold key_by_hash in ground (arith, text_eq_refl (hash_token own)) in
          rw (sym same, sym table)
            (
              ap resolved found,
              ap resolved
                  (key_by_hash-revoke_api_key hash_token later own (keys ++ k ∷ []) k found),
              λ other ne. ap resolved (
                  key_by_hash-revoke_api_key_ne hash_token later own (hash_token other)
                    (keys ++ k ∷ []) ne
                  ∙ key_by_hash-append_ne (hash_token other) keys k ne),
            )
      | inr f ↦ absurd (ground (arith, e, f))
    ]
