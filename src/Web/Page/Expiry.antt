-- ===== src/Web/Page/Expiry.antt =====
-- Answers that are refused.
use screwlogger.Base.{
  ℕ, ◌≡◌, refl, sym, inl, inr, Bool, true, false, ◌&&◌, some, [], ◌∷◌, leb, ◌==◌, if◌then◌else◌,
  Bool-cases, get_elem?, is_empty, Text, codes, concat,
}
use screwlogger.Web.Net.{Response, Payload, answered, settle, failure_message, error_of}
use screwlogger.Web.Format.{Browser}
use mathlib.Core.Path.{subst}
use screwlogger.Web.View.{View, show_login}
use screwlogger.Web.Format.Decimal.{show}
use screwlogger.Web.Page.State.{
  Toast, Page, Pending, Callback, bootstrapped, logged_in, logged_out, dashboard_part, login_page,
  toast, error_message,
}
use screwlogger.Web.Page.{resume, deliver, remove_at, report}
use screwlogger.Web.Page.Devices.{
  on_devices, on_device_deleted, on_device_revoked, on_device_enrolled, on_device_renamed,
}
use screwlogger.Web.Page.Rules.{on_rules, on_rule_saved, on_rule_deleted}
use screwlogger.Web.Page.Keys.{on_keys, on_key_created, on_key_revoked}
use screwlogger.Web.Page.Dashboards.{on_selector}

-- The callbacks that go through `authed`.
abbrev pub IsAuthed : Callback → Type 0
IsAuthed bootstrapped = ⊥
IsAuthed logged_in = ⊥
IsAuthed logged_out = ⊥
IsAuthed (dashboard_part n i) = ⊥
IsAuthed _ = Unit

resume_refused :
    (b : Browser) (now : ℕ) (k : Callback) (res : Response) (p : Page)
    → IsAuthed k
    → res.ok ≡ false
    → resume b now k res p
      ≡ (if res.status == 401 then login_page p else toast (error_message res) true p)
unfolding resume on_devices on_device_revoked on_device_deleted on_device_renamed on_device_enrolled
    on_rules on_rule_saved on_rule_deleted on_keys on_key_revoked on_key_created on_selector
resume_refused b now bootstrapped res p a h = absurd a
resume_refused b now logged_in res p a h = absurd a
resume_refused b now logged_out res p a h = absurd a
resume_refused b now (dashboard_part n i) res p a h = absurd a
resume_refused b now _ res p a h = rw h

-- The answers of a status from 200 to 299.
abbrev is_ok : ℕ → Bool
is_ok status = leb 200 status && leb status 299

-- What a page shows after a refusal with that status and that message.
abbrev pub IsRefusal : ℕ → Text → View → Toast → Page → Type 0
IsRefusal status message v t q =
    if status == 401
    then (q.view.login_hidden ≡ false)
      × (q.view.app_hidden ≡ true)
      × (q.view.login_error_hidden ≡ true)
      × (q.toast ≡ t)
    else (q.view ≡ v)
      × (q.toast.message ≡ message)
      × (q.toast.is_err ≡ true)
      × (q.toast.hidden ≡ false)

-- The message of a refusal: the one in the answer, or its status.
abbrev pub refusal_text : ℕ → Payload → Text
refusal_text status d =
    if is_empty (error_of d) then concat (codes "HTTP " ∷ show status ∷ []) else error_of d

-- The parts of a page that a refusal does not touch.
abbrev pub IsSameElsewhere : Page → Page → Type 0
IsSameElsewhere p q =
    (q.devices_table ≡ p.devices_table)
    × (q.rules_table ≡ p.rules_table)
    × (q.keys_table ≡ p.keys_table)
    × (q.charts ≡ p.charts)
    × (q.batches ≡ p.batches)
    × (q.renames ≡ p.renames)
    × (q.forms ≡ p.forms)
    × (q.selector ≡ p.selector)
    × (q.modal ≡ p.modal)

abbrev after_refusal : ℕ → Payload → ℕ → Page → Page
after_refusal status d i p =
    if status == 401
    then login_page (record p { pending = remove_at i p.pending })
    else toast (error_message (settle (answered status d))) true
        (record p { pending = remove_at i p.pending })

deliver_settled :
    (b : Browser) (now i status : ℕ) (d : Payload) (p : Page) (w : Pending)
    → get_elem? p.pending i ≡ some w
    → IsAuthed w.callback
    → is_ok status ≡ false
    → deliver b now i (answered status d) p ≡ after_refusal status d i p
unfolding deliver report settle failure_message
deliver_settled b now i status d p w e a h =
    rw (e, deliver) (resume_refused b now w.callback (settle (answered status d)) _ a h)

settled-IsRefusal :
    (status : ℕ) (d : Payload) (p : Page) (i : ℕ)
    → IsRefusal status (refusal_text status d) p.view p.toast (after_refusal status d i p)
      × ((after_refusal status d i p).pending ≡ remove_at i p.pending)
      × IsSameElsewhere p (after_refusal status d i p)
unfolding toast error_message settle show_login
settled-IsRefusal status d p i = elim (Bool-cases (status == 401)) [
  | inl e ↦
      rw e ((refl, refl, refl, refl), refl, (refl, refl, refl, refl, refl, refl, refl, refl, refl))
  | inr e ↦
      rw e ((refl, refl, refl, refl), refl, (refl, refl, refl, refl, refl, refl, refl, refl, refl))
]

-- A refused answer to any request but those of the log-in, the log-out, the first probe and the
-- dashboards. For the status 401 the log-in view is shown, without an old error, and the application is
-- hidden; for every other status the views stay, and a message is shown as an error: the one in the
-- answer or else "HTTP" and the status. The request is no longer pending and none is sent, and tables,
-- charts, forms, the selector and the modal window are left as they are.
pub deliver_refused :
    (b : Browser) (now i status : ℕ) (d : Payload) (p : Page) (w : Pending)
    → get_elem? p.pending i ≡ some w
    → IsAuthed w.callback
    → is_ok status ≡ false
    → IsRefusal status
        (refusal_text status d)
        p.view
        p.toast
        (deliver b now i (answered status d) p)
      × ((deliver b now i (answered status d) p).pending ≡ remove_at i p.pending)
      × IsSameElsewhere p (deliver b now i (answered status d) p)
deliver_refused b now i status d p w e a h =
    let same = deliver_settled b now i status d p w e a h in
    subst
      (λ q.
        IsRefusal status (refusal_text status d) p.view p.toast q
        × (q.pending ≡ remove_at i p.pending)
        × IsSameElsewhere p q)
      (sym same) (settled-IsRefusal status d p i)
