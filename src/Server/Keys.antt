-- ===== src/Server/Keys.antt =====
-- The table `api_keys` of internal/server/apikeys.go. The hash of a key is a parameter, the random
-- value of a new key is an argument.
pub mod Life
use screwlogger.Base.{
  ℕ, ◌+◌, Bool, true, false, not, Option, none, some, List, [], ◌∷◌, ◌++◌, map, ltb, leb,
  if◌then◌else◌, length, take, Text, codes, text_eq,
}

-- A row of the table.
pub record ApiKey : Type 0 where
  pub key_hash : Text
  pub label : Text
  pub scopes : Text
  pub created_at : ℕ
  pub revoked_at : Option ℕ

unfoldable pub key_by_hash : Text → List ApiKey → Option ApiKey
key_by_hash h [] = none
key_by_hash h (k ∷ ks) = if text_eq k.key_hash h then some k else key_by_hash h ks

abbrev pub is_none : {A : Type 0} → Option A → Bool
is_none none = true
is_none (some x) = false

-- `CreateAPIKey`, with the key and the table; `none` if the hash is taken.
unfoldable pub create_api_key :
    (Text → Text) → ℕ → Text → Text → List ApiKey → Option (Text × List ApiKey)
unfolding key_by_hash
create_api_key hash_token now random label keys =
    let token = codes "ak_" ++ random in
    let row : ApiKey = record {
      key_hash = hash_token token;
      label = label;
      scopes = codes "read";
      created_at = now;
      revoked_at = none;
    } in
    if not (is_none (key_by_hash (hash_token token) keys))
    then none
    else some (token, keys ++ row ∷ [])

pub data KeyError : Type 0 where
  unknown_key revoked_key : KeyError

pub data Resolved : Type 0 where
  scopes_of : Text → Resolved
  unresolved : KeyError → Resolved

abbrev pub resolved : Option ApiKey → Resolved
resolved none = unresolved unknown_key
resolved (some k) = elim k.revoked_at [
  | none ↦ scopes_of k.scopes
  | some _ ↦ unresolved revoked_key
]

-- `ResolveAPIKey`
unfoldable pub resolve_api_key : (Text → Text) → Text → List ApiKey → Resolved
unfolding key_by_hash
resolve_api_key hash_token token keys = resolved (key_by_hash (hash_token token) keys)

-- `RevokeAPIKeyByPrefix`: the number of rows that were changed, and the table.
unfoldable pub revoke_api_key_by_prefix : ℕ → Text → List ApiKey → ℕ × List ApiKey
revoke_api_key_by_prefix now prefix [] = (0, [])
revoke_api_key_by_prefix now prefix (k ∷ ks) =
    let rest = revoke_api_key_by_prefix now prefix ks in
    if text_eq (take 8 k.key_hash) prefix
    then (rest.0 + 1, record k { revoked_at = some now } ∷ rest.1)
    else (rest.0, k ∷ rest.1)

-- `RevokeAPIKey`
unfoldable pub revoke_api_key : (Text → Text) → ℕ → Text → List ApiKey → List ApiKey
revoke_api_key hash_token now token [] = []
revoke_api_key hash_token now token (k ∷ ks) =
    let rest = revoke_api_key hash_token now token ks in
    if text_eq k.key_hash (hash_token token)
    then record k { revoked_at = some now } ∷ rest
    else k ∷ rest

-- `APIKeyRow`
pub record ApiKeyRow : Type 0 where
  pub label : Text
  pub created_at : ℕ
  pub revoked_at : Option ℕ
  pub hash_prefix : Text

abbrev pub key_row : ApiKey → ApiKeyRow
key_row k = record {
  label = k.label;
  created_at = k.created_at;
  revoked_at = k.revoked_at;
  hash_prefix = if ltb 8 (length k.key_hash) then take 8 k.key_hash else k.key_hash;
}

unfoldable pub insert_key : ApiKey → List ApiKey → List ApiKey
insert_key k [] = k ∷ []
insert_key k (x ∷ xs) = if leb x.created_at k.created_at then k ∷ x ∷ xs else x ∷ insert_key k xs

-- `ORDER BY created_at DESC`
unfoldable pub newest_keys : List ApiKey → List ApiKey
unfolding insert_key
newest_keys [] = []
newest_keys (k ∷ ks) = insert_key k (newest_keys ks)

-- `ListAPIKeys`
abbrev pub list_api_keys : List ApiKey → List ApiKeyRow
list_api_keys keys = map key_row (newest_keys keys)
