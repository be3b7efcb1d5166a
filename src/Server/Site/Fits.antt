-- ===== src/Server/Site/Fits.antt =====
-- The constraints of the constant `schema` of internal/server/store.go on all tables.
use screwlogger.Base.{
  ℕ, ◌≡◌, refl, sym, ap, ◌∙◌, inl, inr, not, none, some, List, [], ◌∷◌, ◌++◌, arith, Bool-cases,
  Text, codes,
}
use mathlib.Core.Path.{subst}
use screwlogger.Server.Keys.{ApiKey, create_api_key, is_none, key_by_hash}
use screwlogger.Server.Site.{Site}
use screwlogger.Server.Site.Keys.{IsKey, IsKey-append}
use screwlogger.Server.Site.Columns.{patterns, key_hashes, occurs-key_by_hash}
use screwlogger.Server.Site.Schema.{StoreFits}

-- Every table has distinct primary keys, and every heartbeat is one of a stored device.
pub record FitsSchema (site : Site) : Type 0 where
  pub store_fits : StoreFits site.store
  pub rules_key : IsKey (patterns site.rules)
  pub keys_key : IsKey (key_hashes site.keys)

key_hashes-append : (ks ls : List ApiKey) → key_hashes (ks ++ ls) ≡ key_hashes ks ++ key_hashes ls
key_hashes-append [] ls = refl
key_hashes-append (k ∷ ks) ls = ap (k.key_hash ∷◌) (key_hashes-append ks ls)

pub create_api_key-IsKey :
    (hash_token : Text → Text) (now : ℕ) (random label : Text) (ks : List ApiKey) (token : Text)
    (ls : List ApiKey)
    → create_api_key hash_token now random label ks ≡ some (token, ls)
    → IsKey (key_hashes ks)
    → IsKey (key_hashes ls)
unfolding create_api_key
create_api_key-IsKey hash_token now random label ks token ls e f =
    let h = hash_token (codes "ak_" ++ random) in
    let k : ApiKey = record {
      key_hash = h;
      label = label;
      scopes = codes "read";
      created_at = now;
      revoked_at = none;
    } in
    elim (Bool-cases (is_none (key_by_hash h ks))) [
      | inl g ↦
          subst (λ ms. IsKey (key_hashes ms)) (ground (arith, e, g))
            (subst IsKey (sym (key_hashes-append ks (k ∷ [])))
              (IsKey-append h (key_hashes ks) (occurs-key_by_hash h ks ∙ ap not g) f))
      | inr g ↦ absurd (ground (arith, e, g))
    ]
