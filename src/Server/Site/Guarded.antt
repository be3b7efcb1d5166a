-- ===== src/Server/Site/Guarded.antt =====
-- Who may use the admin API of internal/server/admin_api.go: the guard of internal/server/admin_auth.go
-- in front of its handlers, over any series of requests to the server.
use screwlogger.Base.{
  ℕ, ◌≤◌, ◌≡◌, refl, sym, ◌∙◌, ◌⊎◌, inl, inr, Bool, true, false, Option, none, some, List, [],
  arith, Bool-cases, Text, codes,
}
use mathlib.Core.Path.{subst}
use screwlogger.Server.Sessions.{failed, Sessions, expiry_of, checked, require_admin}
use screwlogger.Server.Sessions.History.{
  CookieEntry, is_open, opened_by, after_logout, Visits, begin_visits, logging_in, logging_out,
  visiting, require_admin-is_open,
}
use screwlogger.Server.Site.{
  Libraries, Chance, Site, Call, ingesting, logging_on, logging_off, administering, AdminRequest,
  handle_admin, admin_api, after_call,
}
use screwlogger.Server.Site.Keeps.{admin_api-sessions}

module _ (libs : Libraries) where
  -- What a request adds to the history of the cookies: one to log in with the right password opens a
  -- session.
  abbrev pub entries : ℕ → Chance → Call → Site → List CookieEntry → List CookieEntry
  entries now chance (logging_on r) site h = opened_by libs.check_password now chance.session r h
  entries now chance (logging_off cookie) site h = after_logout cookie h
  entries now chance _ site h = h

  -- The states of a server, with the time of the last request and the history of the cookies: it starts
  -- with any tables and without a session, and answers requests in the order of time.
  pub data Served : ℕ → List CookieEntry → Site → Type 0 where
    start_serving : (site : Site) → site.sessions ≡ [] → Served 0 [] site
    then_call :
        (t now : ℕ) (chance : Chance) (call : Call) (h : List CookieEntry) (site : Site)
        → Served t h site
        → t ≤ now
        → Served now (entries now chance call site h) (after_call libs now chance call site)

  Served-Visits :
      (t : ℕ) (h : List CookieEntry) (site : Site)
      → Served t h site
      → Visits libs.check_password t h site.sessions
  unfolding after_call require_admin
  Served-Visits t h site (start_serving first e) =
      subst (Visits libs.check_password 0 []) (sym e) begin_visits
  Served-Visits t h site (then_call u now chance (ingesting r) g v run later) =
      visiting u now none g v.sessions (Served-Visits u g v run) later
  Served-Visits t h site (then_call u now chance (logging_on r) g v run later) =
      logging_in u now chance.session r g v.sessions (Served-Visits u g v run) later
  Served-Visits t h site (then_call u now chance (logging_off cookie) g v run later) =
      logging_out now cookie g v.sessions
        (visiting u now none g v.sessions (Served-Visits u g v run) later)
  Served-Visits t h site (then_call u now chance (administering cookie r) g v run later) =
      subst (Visits libs.check_password now g) (sym (admin_api-sessions libs now chance cookie r v))
        (visiting u now cookie g v.sessions (Served-Visits u g v run) later)

abbrev pub is_open_for : ℕ → Option Text → List CookieEntry → Bool
is_open_for now none h = false
is_open_for now (some c) h = is_open now c h

require_admin-is_open_for :
    (check : Text → Bool) (t now : ℕ) (cookie : Option Text) (h : List CookieEntry) (s : Sessions)
    → Visits check t h s
    → t ≤ now
    → (require_admin now cookie s).0 ≡ is_open_for now cookie h
require_admin-is_open_for check t now none h s run later = unfold require_admin in refl
require_admin-is_open_for check t now (some c) h s run later =
    require_admin-is_open check t now c h s run later

checked_kept :
    (now : ℕ) (c : Text) (o : Option ℕ) (s : Sessions)
    → (checked now c o s).0 ≡ true
    → (checked now c o s).1 ≡ s
checked_kept now c none s e = refl
checked_kept now c (some expiry) s e = ground (arith, e)

require_admin_kept :
    (now : ℕ) (cookie : Option Text) (s : Sessions)
    → (require_admin now cookie s).0 ≡ true
    → (require_admin now cookie s).1 ≡ s
unfolding require_admin
require_admin_kept now none s e = refl
require_admin_kept now (some c) s e = checked_kept now c (expiry_of c s) s e

-- The admin API in every state of the server: a request reaches its handler, and changes what the
-- handler changes, exactly if its cookie is that of an open session, which was given out for a request
-- to log in with the right password at most twelve hours ago and not logged out since. Any other
-- request, also one without a cookie, is answered with 401 and changes no table.
pub admin_api-is_open :
    (libs : Libraries) (t now : ℕ) (chance : Chance) (cookie : Option Text) (r : AdminRequest)
    (h : List CookieEntry) (site : Site)
    → Served libs t h site
    → t ≤ now
    → ((is_open_for now cookie h ≡ true)
        × (admin_api libs now chance cookie r site ≡ handle_admin libs now chance r site))
      ⊎ ((is_open_for now cookie h ≡ false)
          × ((admin_api libs now chance cookie r site).0 ≡ failed 401 (codes "unauthorized"))
          × ((admin_api libs now chance cookie r site).1.store ≡ site.store)
          × ((admin_api libs now chance cookie r site).1.rules ≡ site.rules)
          × ((admin_api libs now chance cookie r site).1.keys ≡ site.keys))
unfolding admin_api
admin_api-is_open libs t now chance cookie r h site run later =
    let open_lem =
      require_admin-is_open_for libs.check_password t now cookie h site.sessions
        (Served-Visits libs t h site run) later in
    elim (Bool-cases (require_admin now cookie site.sessions).0) [
      | inl e ↦ inl (sym open_lem ∙ e, rw (e, require_admin_kept now cookie site.sessions e))
      | inr e ↦ inr (sym open_lem ∙ e, rw e refl, rw e refl, rw e refl, rw e refl)
    ]
