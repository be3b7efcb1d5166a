-- ===== src/Web/Routes.antt =====
-- The routes of the admin API and of the session, as internal/server/admin_api.go and
-- internal/server/mux.go register them, with the bodies that their handlers decode. `{id}` and
-- `{hash}` stand for one path segment.
use screwlogger.Base.{◌≡◌, ◌≢◌, Bool, none, some, [], ◌∷◌, ◌++◌, Text, codes, concat}
use screwlogger.Web.Net.{
  Request, make_request, get, post, put, delete, password_body, name_body, label_body, pattern_body,
  rule_body,
}
use screwlogger.Web.Uri.{trim}
use screwlogger.Web.Uri.Segment.{IsSegment}

pub data Route : Type 0 where
  login : Text → Route
  logout device_list rule_list key_list : Route
  device_enroll : Text → Route
  device_revoke device_delete : Text → Route
  device_rename : Text → Text → Route
  rule_upsert : Text → Text → Bool → Route
  rule_delete : Text → Route
  key_create : Text → Route
  key_revoke : Text → Route
  usage active_ratio events : Text → Route

-- The request that a route answers to; the text of the last three is the query.
abbrev pub request_of : Route → Request
request_of (login pw) = make_request post (codes "/admin/login") (some (password_body pw))
request_of logout = make_request post (codes "/admin/logout") none
request_of device_list = make_request get (codes "/admin/api/devices") none
request_of rule_list = make_request get (codes "/admin/api/rules") none
request_of key_list = make_request get (codes "/admin/api/keys") none
request_of (device_enroll name) =
    make_request post (codes "/admin/api/devices") (some (name_body name))
request_of (device_revoke id) =
    make_request post (concat (codes "/admin/api/devices/" ∷ id ∷ codes "/revoke" ∷ [])) none
request_of (device_delete id) =
    make_request delete (concat (codes "/admin/api/devices/" ∷ id ∷ [])) none
request_of (device_rename id name) =
    make_request put (concat (codes "/admin/api/devices/" ∷ id ∷ codes "/name" ∷ []))
      (some (name_body name))
request_of (rule_upsert pattern category apply) =
    make_request put (codes "/admin/api/rules") (some (rule_body pattern category apply))
request_of (rule_delete pattern) =
    make_request delete (codes "/admin/api/rules") (some (pattern_body pattern))
request_of (key_create label) =
    make_request post (codes "/admin/api/keys") (some (label_body label))
request_of (key_revoke hash) =
    make_request post (concat (codes "/admin/api/keys/" ∷ hash ∷ codes "/revoke" ∷ [])) none
request_of (usage q) = make_request get (codes "/admin/api/usage?" ++ q) none
request_of (active_ratio q) = make_request get (codes "/admin/api/active-ratio?" ++ q) none
request_of (events q) = make_request get (codes "/admin/api/events?" ++ q) none

-- A text that is not empty and has no white space at either end.
abbrev pub IsTrimmed : Text → Type 0
IsTrimmed s = (s ≢ []) × (trim s ≡ s)

-- An identifier that stays one segment of a path, and names that are trimmed.
abbrev pub IsProper : Route → Type 0
IsProper (device_enroll name) = IsTrimmed name
IsProper (device_revoke id) = IsSegment id
IsProper (device_delete id) = IsSegment id
IsProper (device_rename id name) = IsSegment id × IsTrimmed name
IsProper (rule_upsert pattern category apply) = IsTrimmed pattern × IsTrimmed category
IsProper (key_create label) = IsTrimmed label
IsProper (key_revoke hash) = IsSegment hash
IsProper _ = Unit

-- A request with the method, the path and the body of a route.
abbrev pub IsRouted : Request → Type 0
IsRouted r = (route : Route) × IsProper route × (r ≡ request_of route)
