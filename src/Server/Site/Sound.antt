-- ===== src/Server/Site/Sound.antt =====
-- The constraints of the constant `schema` of internal/server/store.go on all tables, for every
-- request to internal/server/mux.go.
use screwlogger.Base.{ℕ, sym}
use mathlib.Core.Path.{subst}
use screwlogger.Server.Site.{Libraries, Chance, Site, Call, after_call, unix_of}
use screwlogger.Server.Site.Keys.{IsKey}
use screwlogger.Server.Site.Columns.{
  patterns, key_hashes, without_rule-IsKey, upsert_rule-IsKey, key_hashes-revoke_api_key_by_prefix,
}
use screwlogger.Server.Site.Schema.{
  StoreFits, ingest-StoreFits, revoke_device-StoreFits, rename_device-StoreFits,
  delete_device-StoreFits, create_device-StoreFits, recategorize-StoreFits,
}
use screwlogger.Server.Site.Fits.{FitsSchema, create_api_key-IsKey}
use screwlogger.Server.Site.Kept.{Closed, after_call_kept}

schema-Closed :
    (libs : Libraries) (now : ℕ) (chance : Chance)
    → Closed libs now chance StoreFits (λ rs. IsKey (patterns rs)) (λ ks. IsKey (key_hashes ks))
schema-Closed libs now chance = record {
  ingests = ingest-StoreFits libs.hash_token (unix_of now);
  enrolls = create_device-StoreFits libs.hash_token (unix_of now) chance.device_id chance.token;
  revokes = revoke_device-StoreFits (unix_of now);
  renames = rename_device-StoreFits;
  deletes = delete_device-StoreFits;
  recategorizes = recategorize-StoreFits libs.matches;
  upserts = upsert_rule-IsKey (unix_of now);
  drops = without_rule-IsKey;
  makes = λ label token ks ls.
      create_api_key-IsKey libs.hash_token (unix_of now) chance.token label ks token ls;
  retires = λ p ks k. subst IsKey (sym (key_hashes-revoke_api_key_by_prefix (unix_of now) p ks)) k;
}

-- Every request keeps the constraints of the schema: the identifiers of devices and of heartbeats, the
-- patterns of rules and the hashes of keys stay distinct, and every heartbeat stays one of a stored
-- device, whatever the bodies, the random values and the libraries give.
pub after_call-FitsSchema :
    (libs : Libraries) (now : ℕ) (chance : Chance) (call : Call) (site : Site)
    → FitsSchema site
    → FitsSchema (after_call libs now chance call site)
after_call-FitsSchema libs now chance call site g =
    let (s, r, k) =
      after_call_kept libs now chance _ _ _ (schema-Closed libs now chance) call site
        (g.store_fits, g.rules_key, g.keys_key) in
    record { store_fits = s; rules_key = r; keys_key = k }
