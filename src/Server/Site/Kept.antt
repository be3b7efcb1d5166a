-- ===== src/Server/Site/Kept.antt =====
-- One traversal of all requests to internal/server/mux.go, for invariants of the tables: what the
-- statements of the store keep, every request keeps.
use screwlogger.Base.{
  ℕ, ◌≡◌, refl, inl, inr, Option, none, some, List, ltb, ◌==◌, Bool-cases, is_empty, Text,
}
use screwlogger.Server.QueryApi.{QueryReply, handle_query}
use screwlogger.Server.Store.{
  Store, unknown_token, revoked, unknown_device, not_revoked, foreign_key, Result, ok, err,
  revoke_device, rename_device, delete_device,
}
use screwlogger.Server.Sessions.{HttpResult, failed, succeeded, require_admin}
use screwlogger.Server.Devices.{create_device}
use screwlogger.Server.Rules.{RuleRow, upsert_rule, without_rule, recategorize}
use screwlogger.Server.Keys.{ApiKey, revoke_api_key_by_prefix, create_api_key}
use screwlogger.Server.Ingest.{IngestRequest, ingest}
use screwlogger.Server.Site.{
  Libraries, Chance, Site, Call, ingesting, logging_on, logging_off, administering, RuleBody,
  AdminRequest, device_enroll, query_get, rules_get, keys_get, device_revoke, device_delete,
  key_revoke, device_rename, rule_upsert, rule_delete, key_create, max_device_name_len, unix_of,
  query_handled, enroll_reply, rename_reply, delete_reply, key_reply, handle_rename,
  handle_rule_upsert, handle_key_revoke, handle_admin, admin_api, after_call,
}

-- The predicates on the tables of devices and heartbeats, of rules and of keys are kept by the statements
-- of a request at this time and with these random values.
pub record Closed (libs : Libraries) (now : ℕ) (chance : Chance) (P : Store → Type 0)
    (R : List RuleRow → Type 0) (K : List ApiKey → Type 0) : Type 0 where
  pub ingests :
      (r : IngestRequest) (s : Store) → P s → P (ingest libs.hash_token (unix_of now) r s).1
  pub enrolls :
      (name token : Text) (s t : Store)
      → create_device libs.hash_token (unix_of now) chance.device_id chance.token name s
        ≡ some (token, t)
      → P s
      → P t
  pub revokes : (id : Text) (s : Store) → P s → P (revoke_device (unix_of now) id s)
  pub renames : (id name : Text) (s t : Store) → rename_device id name s ≡ ok t → P s → P t
  pub deletes : (id : Text) (s t : Store) → delete_device id s ≡ ok t → P s → P t
  pub recategorizes :
      (p category : Text) (s : Store) → P s → P (recategorize libs.matches p category s).1
  pub upserts :
      (p category : Text) (rs : List RuleRow) → R rs → R (upsert_rule (unix_of now) p category rs)
  pub drops : (p : Text) (rs : List RuleRow) → R rs → R (without_rule p rs)
  pub makes :
      (label token : Text) (ks ls : List ApiKey)
      → create_api_key libs.hash_token (unix_of now) chance.token label ks ≡ some (token, ls)
      → K ks
      → K ls
  pub retires :
      (p : Text) (ks : List ApiKey) → K ks → K (revoke_api_key_by_prefix (unix_of now) p ks).1

module _ (libs : Libraries) (now : ℕ) (chance : Chance) (P : Store → Type 0)
    (R : List RuleRow → Type 0) (K : List ApiKey → Type 0)
    (closed : Closed libs now chance P R K) where
  abbrev Holds : Site → Type 0
  Holds site = P site.store × R site.rules × K site.keys

  enroll_reply-Holds :
      (id : Text) (o : Option (Text × Store)) (site : Site)
      → ((token : Text) (s : Store) → o ≡ some (token, s) → P s)
      → Holds site
      → Holds (enroll_reply id o site).1
  enroll_reply-Holds id none site f h = h
  enroll_reply-Holds id (some (token, s)) site f (p, q, k) = (f token s refl, q, k)

  rename_reply-Holds :
      (o : Result Store) (site : Site)
      → ((s : Store) → o ≡ ok s → P s)
      → Holds site
      → Holds (rename_reply o site).1
  rename_reply-Holds (ok s) site f (p, q, k) = (f s refl, q, k)
  rename_reply-Holds (err unknown_token) site f h = h
  rename_reply-Holds (err revoked) site f h = h
  rename_reply-Holds (err unknown_device) site f h = h
  rename_reply-Holds (err not_revoked) site f h = h
  rename_reply-Holds (err foreign_key) site f h = h

  delete_reply-Holds :
      (o : Result Store) (site : Site)
      → ((s : Store) → o ≡ ok s → P s)
      → Holds site
      → Holds (delete_reply o site).1
  delete_reply-Holds (ok s) site f (p, q, k) = (f s refl, q, k)
  delete_reply-Holds (err unknown_token) site f h = h
  delete_reply-Holds (err revoked) site f h = h
  delete_reply-Holds (err unknown_device) site f h = h
  delete_reply-Holds (err not_revoked) site f h = h
  delete_reply-Holds (err foreign_key) site f h = h

  key_reply-Holds :
      (o : Option (Text × List ApiKey)) (site : Site)
      → ((token : Text) (ks : List ApiKey) → o ≡ some (token, ks) → K ks)
      → Holds site
      → Holds (key_reply o site).1
  key_reply-Holds none site f h = h
  key_reply-Holds (some (token, ks)) site f (p, r, k) = (p, r, f token ks refl)

  query_handled-Holds :
      (o : HttpResult QueryReply) (site : Site) → Holds site → Holds (query_handled o site).1
  query_handled-Holds (failed status message) site h = h
  query_handled-Holds (succeeded reply) site h = h

  handle_rename-Holds :
      (id : Text) (body : Option Text) (site : Site)
      → Holds site
      → Holds (handle_rename libs now chance id body site).1
  unfolding handle_rename
  handle_rename-Holds id none site h = h
  handle_rename-Holds id (some body) site (p, q, k) =
      let name = libs.trim_space body in
      let renamed =
        rename_reply-Holds (rename_device id name site.store) site
          (λ s e. closed.renames id name site.store s e p) (p, q, k) in
      elim (Bool-cases (is_empty name)) [
        | inl e ↦ rw e (p, q, k)
        | inr e ↦ elim (Bool-cases (ltb max_device_name_len (libs.rune_count name))) [
          | inl f ↦ rw (e, f) (p, q, k)
          | inr f ↦ rw (e, f) renamed
        ]
      ]

  handle_rule_upsert-Holds :
      (body : Option RuleBody) (site : Site)
      → Holds site
      → Holds (handle_rule_upsert libs now chance body site).1
  unfolding handle_rule_upsert
  handle_rule_upsert-Holds none site h = h
  handle_rule_upsert-Holds (some body) site (p, r, k) =
      let changed = closed.upserts body.pattern body.category site.rules r in
      elim (Bool-cases body.apply_to_history) [
        | inl e ↦ rw e (closed.recategorizes body.pattern body.category site.store p, changed, k)
        | inr e ↦ rw e (p, changed, k)
      ]

  handle_key_revoke-Holds :
      (hash : Text) (site : Site)
      → Holds site
      → Holds (handle_key_revoke libs now chance hash site).1
  unfolding handle_key_revoke
  handle_key_revoke-Holds hash site (p, r, k) =
      elim (Bool-cases ((revoke_api_key_by_prefix (unix_of now) hash site.keys).0 == 0)) [
        | inl e ↦ rw e (p, r, closed.retires hash site.keys k)
        | inr e ↦ rw e (p, r, closed.retires hash site.keys k)
      ]

  handle_admin-Holds :
      (r : AdminRequest) (site : Site) → Holds site → Holds (handle_admin libs now chance r site).1
  unfolding handle_admin
  handle_admin-Holds (device_enroll none) site h = h
  handle_admin-Holds (device_enroll (some name)) site (p, q, k) =
      enroll_reply-Holds chance.device_id
        (create_device libs.hash_token (unix_of now) chance.device_id chance.token name site.store)
        site (λ token s e. closed.enrolls name token site.store s e p) (p, q, k)
  handle_admin-Holds (query_get r) site h =
      query_handled-Holds (handle_query libs.parse_int (unix_of now) r site.store) site h
  handle_admin-Holds (device_revoke id) site (p, q, k) = (closed.revokes id site.store p, q, k)
  handle_admin-Holds (device_rename id body) site h = handle_rename-Holds id body site h
  handle_admin-Holds (device_delete id) site (p, q, k) =
      delete_reply-Holds (delete_device id site.store) site
        (λ s e. closed.deletes id site.store s e p) (p, q, k)
  handle_admin-Holds rules_get site h = h
  handle_admin-Holds (rule_upsert body) site h = handle_rule_upsert-Holds body site h
  handle_admin-Holds (rule_delete none) site h = h
  handle_admin-Holds (rule_delete (some pattern)) site (p, r, k) =
      (p, closed.drops pattern site.rules r, k)
  handle_admin-Holds (key_create none) site h = h
  handle_admin-Holds (key_create (some label)) site (p, r, k) =
      key_reply-Holds (create_api_key libs.hash_token (unix_of now) chance.token label site.keys)
        site (λ token ks e. closed.makes label token site.keys ks e k) (p, r, k)
  handle_admin-Holds keys_get site h = h
  handle_admin-Holds (key_revoke hash) site h = handle_key_revoke-Holds hash site h

  admin_api-Holds :
      (cookie : Option Text) (r : AdminRequest) (site : Site)
      → Holds site
      → Holds (admin_api libs now chance cookie r site).1
  unfolding admin_api
  admin_api-Holds cookie r site h =
      let guard = require_admin now cookie site.sessions in
      elim (Bool-cases guard.0) [
        | inl e ↦ rw e (handle_admin-Holds r (record site { sessions = guard.1 }) h)
        | inr e ↦ rw e h
      ]

  pub after_call_kept :
      (call : Call) (site : Site) → Holds site → Holds (after_call libs now chance call site)
  unfolding after_call
  after_call_kept (ingesting r) site (p, q, k) = (closed.ingests r site.store p, q, k)
  after_call_kept (logging_on r) site h = h
  after_call_kept (logging_off cookie) site h = h
  after_call_kept (administering cookie r) site h = admin_api-Holds cookie r site h
