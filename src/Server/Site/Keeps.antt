-- ===== src/Server/Site/Keeps.antt =====
-- The handlers of internal/server/admin_api.go leave the sessions alone.
use screwlogger.Base.{
  ℕ, ◌≡◌, refl, inl, inr, Option, none, some, List, arith, ltb, Bool-cases, is_empty, Text,
}
use screwlogger.Server.Store.{
  Store, unknown_token, revoked, unknown_device, not_revoked, foreign_key, Result, ok, err,
  rename_device,
}
use screwlogger.Server.Sessions.{require_admin, HttpResult, failed, succeeded}
use screwlogger.Server.QueryApi.{QueryReply, handle_query}
use screwlogger.Server.Keys.{ApiKey}
use screwlogger.Server.Site.{
  Libraries, Chance, query_handled, unix_of, Site, Handled, RuleBody, AdminRequest, device_enroll,
  query_get, rules_get, keys_get, device_revoke, device_delete, key_revoke, device_rename,
  rule_upsert, rule_delete, key_create, enroll_reply, rename_reply, delete_reply, key_reply,
  max_device_name_len, handle_rename, handle_rule_upsert, handle_key_revoke, handle_admin,
  admin_api,
}

-- A handler leaves the sessions alone.
abbrev Keeps : Site → Handled → Type 0
Keeps site r = r.1.sessions ≡ site.sessions

enroll_reply-Keeps :
    (id : Text) (o : Option (Text × Store)) (site : Site) → Keeps site (enroll_reply id o site)
enroll_reply-Keeps id none site = refl
enroll_reply-Keeps id (some (token, s)) site = refl

key_reply-Keeps : (o : Option (Text × List ApiKey)) (site : Site) → Keeps site (key_reply o site)
key_reply-Keeps none site = refl
key_reply-Keeps (some (token, ks)) site = refl

rename_reply-Keeps : (o : Result Store) (site : Site) → Keeps site (rename_reply o site)
rename_reply-Keeps (ok s) site = refl
rename_reply-Keeps (err unknown_token) site = refl
rename_reply-Keeps (err revoked) site = refl
rename_reply-Keeps (err unknown_device) site = refl
rename_reply-Keeps (err not_revoked) site = refl
rename_reply-Keeps (err foreign_key) site = refl

delete_reply-Keeps : (o : Result Store) (site : Site) → Keeps site (delete_reply o site)
delete_reply-Keeps (ok s) site = refl
delete_reply-Keeps (err unknown_token) site = refl
delete_reply-Keeps (err revoked) site = refl
delete_reply-Keeps (err unknown_device) site = refl
delete_reply-Keeps (err not_revoked) site = refl
delete_reply-Keeps (err foreign_key) site = refl

query_handled-Keeps : (o : HttpResult QueryReply) (site : Site) → Keeps site (query_handled o site)
query_handled-Keeps (failed status message) site = refl
query_handled-Keeps (succeeded reply) site = refl

module _ (libs : Libraries) (now : ℕ) (chance : Chance) where
  handle_rename-Keeps :
      (id : Text) (body : Option Text) (site : Site)
      → Keeps site (handle_rename libs now chance id body site)
  unfolding handle_rename
  handle_rename-Keeps id none site = refl
  handle_rename-Keeps id (some body) site =
      let name = libs.trim_space body in
      elim (Bool-cases (is_empty name)) [
        | inl e ↦ rw e refl
        | inr e ↦ elim (Bool-cases (ltb max_device_name_len (libs.rune_count name))) [
          | inl f ↦ rw (e, f) refl
          | inr f ↦ rw (e, f) (rename_reply-Keeps (rename_device id name site.store) site)
        ]
      ]

  handle_rule_upsert-Keeps :
      (body : Option RuleBody) (site : Site)
      → Keeps site (handle_rule_upsert libs now chance body site)
  unfolding handle_rule_upsert
  handle_rule_upsert-Keeps none site = refl
  handle_rule_upsert-Keeps (some body) site = ground arith

  handle_key_revoke-Keeps :
      (hash : Text) (site : Site) → Keeps site (handle_key_revoke libs now chance hash site)
  unfolding handle_key_revoke
  handle_key_revoke-Keeps hash site = ground arith

  handle_admin-Keeps :
      (r : AdminRequest) (site : Site) → Keeps site (handle_admin libs now chance r site)
  unfolding handle_admin
  handle_admin-Keeps (device_enroll none) site = refl
  handle_admin-Keeps (device_enroll (some name)) site = enroll_reply-Keeps _ _ site
  handle_admin-Keeps (query_get r) site =
      query_handled-Keeps (handle_query libs.parse_int (unix_of now) r site.store) site
  handle_admin-Keeps (device_revoke id) site = refl
  handle_admin-Keeps (device_rename id body) site = handle_rename-Keeps id body site
  handle_admin-Keeps (device_delete id) site = delete_reply-Keeps _ site
  handle_admin-Keeps rules_get site = refl
  handle_admin-Keeps (rule_upsert body) site = handle_rule_upsert-Keeps body site
  handle_admin-Keeps (rule_delete none) site = refl
  handle_admin-Keeps (rule_delete (some pattern)) site = refl
  handle_admin-Keeps (key_create none) site = refl
  handle_admin-Keeps (key_create (some label)) site = key_reply-Keeps _ site
  handle_admin-Keeps keys_get site = refl
  handle_admin-Keeps (key_revoke hash) site = handle_key_revoke-Keeps hash site

  pub admin_api-sessions :
      (cookie : Option Text) (r : AdminRequest) (site : Site)
      → (admin_api libs now chance cookie r site).1.sessions
        ≡ (require_admin now cookie site.sessions).1
  unfolding admin_api
  admin_api-sessions cookie r site = elim (Bool-cases (require_admin now cookie site.sessions).0) [
    | inl e ↦ rw e (
        handle_admin-Keeps r
          (record site { sessions = (require_admin now cookie site.sessions).1 }))
    | inr e ↦ rw e refl
  ]
