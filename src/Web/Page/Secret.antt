-- ===== src/Web/Page/Secret.antt =====
-- The one-time secret: which answers put one into the modal window.
use screwlogger.Base.{
  ℕ, ◌≡◌, refl, inl, inr, Bool, false, Option, some, List, [], ◌∷◌, arith, ◌==◌, if◌then◌else◌,
  Option-cases, get_elem?, set, Text, codes, concat,
}
use screwlogger.Web.Select.{populate}
use screwlogger.Web.Net.{devices_of, Response, token_of, key_of}
use screwlogger.Web.Format.{Browser}
use screwlogger.Web.Page.{resume}
use screwlogger.Web.Page.Devices.{
  on_devices, on_device_deleted, on_device_revoked, on_device_enrolled, then_device_renamed,
  on_device_renamed, finish,
}
use screwlogger.Web.Page.Rules.{on_rules, on_rule_saved, on_rule_deleted}
use screwlogger.Web.Page.Keys.{on_keys, on_key_created, on_key_revoked}
use screwlogger.Web.Page.Dashboards.{
  then_selector, on_selector, on_part, draw_charts, draw_all, resolve, draw, render_dashboards,
  send_jobs, device_part,
}
use screwlogger.Web.Page.Session.{on_bootstrapped, on_logged_in, on_logged_out}
use screwlogger.Web.Page.State.{
  Page, Modal, Callback, bootstrapped, logged_in, logged_out, device_renamed, device_enrolled,
  key_created, got_selector, dashboard_part, toast, if_authed, show_secret, api,
}
use screwlogger.Web.Charts.{Charts}

abbrev secret_modal : Text → Text → Text → Modal
secret_modal what name secret = record {
  hidden = false;
  title = concat (what ∷ name ∷ []);
  secret = secret;
}

-- The modal window after an answer: a new secret for an enrolled device or a created key whose
-- answer is accepted, and the window as it was otherwise.
abbrev pub modal_after : Callback → Response → Modal → Modal
modal_after (device_enrolled name) res m =
    if res.status == 401
    then m
    else if res.ok
    then secret_modal (codes "Device token for ") name (token_of res.payload)
    else m
modal_after (key_created label) res m =
    if res.status == 401
    then m
    else if res.ok
    then secret_modal (codes "API key for ") label (key_of res.payload)
    else m
modal_after _ res m = m

-- An accepted answer leaves the window alone if what follows does.
modal-if_authed :
    (res : Response) (rest : Page → Page) (p : Page)
    → (rest p).modal ≡ p.modal
    → (if_authed res rest p).modal ≡ p.modal
unfolding if_authed
modal-if_authed res rest p h = ground arith

modal-finish : (n : ℕ) (p : Page) → (finish n p).modal ≡ p.modal
unfolding finish api
modal-finish n p = ground arith

modal-render_dashboards :
    (b : Browser) (now : ℕ) (p : Page) → (render_dashboards b now p).modal ≡ p.modal
unfolding render_dashboards send_jobs api
modal-render_dashboards b now p = elim (Option-cases (device_part p.selector.value)) [
  | inl e ↦ rw (e, render_dashboards)
  | inr (d, e) ↦ rw (e, render_dashboards)
]

modal-draw : (f : Charts → Charts × Bool) (p : Page) → (draw f p).modal ≡ p.modal
unfolding draw toast
modal-draw f p = ground arith

modal-draw_charts :
    (b : Browser) (to : ℕ) (r0 r1 r2 r3 : Response) (p : Page)
    → (draw_charts b to r0 r1 r2 r3 p).modal ≡ p.modal
unfolding draw_charts
modal-draw_charts b to r0 r1 r2 r3 p = simp modal-draw

modal-draw_all :
    (b : Browser) (to : ℕ) (r0 r1 r2 r3 : Response) (p : Page)
    → (draw_all b to r0 r1 r2 r3 p).modal ≡ p.modal
unfolding draw_all
modal-draw_all b to r0 r1 r2 r3 p =
    modal-if_authed r0 (draw_charts b to r0 r1 r2 r3) p (modal-draw_charts b to r0 r1 r2 r3 p)

modal-resolve :
    (b : Browser) (to : ℕ) (rs : List (Option Response)) (p : Page)
    → (resolve b to rs p).modal ≡ p.modal
unfolding resolve
modal-resolve b to (some r0 ∷ some r1 ∷ some r2 ∷ some r3 ∷ []) p =
    modal-draw_all b to r0 r1 r2 r3 p
modal-resolve b to _ p = refl

modal-on_part :
    (b : Browser) (n i : ℕ) (res : Response) (p : Page) → (on_part b n i res p).modal ≡ p.modal
unfolding on_part
modal-on_part b n i res p = elim (Option-cases (get_elem? p.batches n)) [
  | inl e ↦ rw (e, on_part)
  | inr (batch, e) ↦
      rw (e, on_part)
        (let answers = set batch.answers i (some res) in
          modal-resolve b batch.to answers
            (record p { batches = set p.batches n (record batch { answers = answers }) }))
]

-- A secret is put into the modal window by the accepted answer to an enrolment or to the creation of
-- a key, with the name or label that was sent, and by no other answer.
pub modal-resume :
    (b : Browser) (now : ℕ) (k : Callback) (res : Response) (p : Page)
    → (resume b now k res p).modal ≡ modal_after k res p.modal
unfolding resume on_bootstrapped on_logged_in on_logged_out on_devices on_device_revoked
    on_device_deleted on_device_renamed on_device_enrolled on_rules on_rule_saved on_rule_deleted
    on_keys on_key_revoked on_key_created on_selector api toast show_secret
modal-resume b now bootstrapped res p = ground arith
modal-resume b now logged_in res p = ground arith
modal-resume b now (device_enrolled name) res p = ground arith
modal-resume b now (key_created label) res p = ground arith
modal-resume b now (device_renamed n) res p =
    modal-if_authed res (then_device_renamed n) p
      (modal-finish n (toast (codes "Device renamed") false p))
modal-resume b now got_selector res p = modal-if_authed res (then_selector b now res) p (
    modal-render_dashboards b now
      (record p { selector = populate (devices_of res.payload) p.selector }))
modal-resume b now (dashboard_part n i) res p = modal-on_part b n i res p
modal-resume b now logged_out res p = refl
modal-resume b now _ res p = ground arith
