-- ===== src/Web/Page.antt =====
-- The whole page of internal/server/web/app.js as a state machine: the listeners of its "wire up"
-- part and of the rows, and the delivery of the answers to the requests that wait, one at a time and
-- in any order. Whether an element can be reached by the operator while it is hidden is left open:
-- every listener may run at any time, except that a table row must be there.
pub mod State
pub mod Devices
pub mod Rules
pub mod Keys
pub mod Dashboards
pub mod Session
pub mod Kept
pub mod Reachable
pub mod Expiry
pub mod Order
pub mod Renaming
pub mod Secret
use screwlogger.Base.{
  ℕ, zero, suc, Bool, true, false, not, ◌||◌, Option, none, some, List, [], ◌∷◌, ◌==◌,
  if◌then◌else◌, get_elem?, set, Text, codes,
}
use screwlogger.Web.Wire.{Device, Rule, Key}
use screwlogger.Web.Net.{Response, Answer, settle, failure_message}
use screwlogger.Web.Format.{Browser}
use screwlogger.Web.View.{Panel}
use screwlogger.Web.Select.{Preset}
use screwlogger.Web.Rows.{Action, rename, revoke, delete, device_buttons, key_revoke_disabled}
use screwlogger.Web.Rows.Buttons.{enabled}
use State.{
  Page, Callback, Pending, Table, blank, no_rows, filled, DeviceRow, initial, toast, toast_timeout,
  hide_modal, bootstrapped, logged_in, logged_out, got_devices, device_revoked, device_deleted,
  device_renamed, device_enrolled, got_rules, rule_saved, rule_deleted, got_keys, key_revoked,
  key_created, got_selector, dashboard_part, Rename,
}
use Devices.{
  on_devices, delete_device, on_device_deleted, revoke_device, on_device_revoked, enroll_device,
  on_device_enrolled, start_rename, finish, submit, on_device_renamed,
}
use Rules.{
  on_rules, fill_rule_form, reset_rule_form, save_rule, on_rule_saved, delete_rule, on_rule_deleted,
}
use Keys.{on_keys, create_key, on_key_created, revoke_key, on_key_revoked}
use Dashboards.{on_selector, render_dashboards, on_part}
use Session.{
  bootstrap, on_bootstrapped, do_login, on_logged_in, do_logout, on_logged_out, switch_panel,
}

-- The callback of an answer, at a time in milliseconds.
unfoldable pub resume : Browser → ℕ → Callback → Response → Page → Page
resume b now bootstrapped res = on_bootstrapped res
resume b now logged_in res = on_logged_in res
resume b now logged_out res = on_logged_out res
resume b now got_devices res = on_devices res
resume b now device_revoked res = on_device_revoked res
resume b now device_deleted res = on_device_deleted res
resume b now (device_renamed n) res = on_device_renamed n res
resume b now (device_enrolled name) res = on_device_enrolled name res
resume b now got_rules res = on_rules res
resume b now rule_saved res = on_rule_saved res
resume b now rule_deleted res = on_rule_deleted res
resume b now got_keys res = on_keys res
resume b now key_revoked res = on_key_revoked res
resume b now (key_created label) res = on_key_created label res
resume b now got_selector res = on_selector b now res
resume b now (dashboard_part n i) res = on_part b n i res

-- The `catch` of `api`, which shows a failure before the callback runs.
unfoldable pub report : Answer → Page → Page
report a p = elim (failure_message a) [ none ↦ p | some m ↦ toast m true p ]

unfoldable pub remove_at : ℕ → List Pending → List Pending
remove_at i [] = []
remove_at zero (x ∷ xs) = xs
remove_at (suc i) (x ∷ xs) = x ∷ remove_at i xs

-- The answer to the waiting request of that index.
unfoldable pub deliver : Browser → ℕ → ℕ → Answer → Page → Page
unfolding resume report
deliver b now i a p = elim (get_elem? p.pending i) [
  | none ↦ p
  | some w ↦
      resume b now w.callback (settle a) (report a (record p { pending = remove_at i p.pending }))
]

-- The text fields of the page.
pub data Field : Type 0 where
  password enroll_name rule_pattern rule_category key_label : Field

-- What the operator, and the toast's timer, do. A flag is the answer to `confirm`.
pub data Input : Type 0 where
  submit_login press_logout submit_enroll submit_rule press_rule_cancel submit_key : Input
  press_refresh press_modal_close toast_timer : Input
  -- the text of the modal window has been copied, at once or by the browser's clipboard
  modal_copied : Input
  press_nav : Panel → Input
  press_device : ℕ → Action → Bool → Input
  type_rename : ℕ → Text → Input
  save_rename cancel_rename : ℕ → Input
  press_rule_edit : ℕ → Input
  press_rule_delete press_key_revoke : ℕ → Bool → Input
  choose_device : Text → Input
  choose_range : Preset → Input
  type_field : Field → Text → Input
  check_apply : Bool → Input

abbrev pub rows_of : {A : Type 0} → Table A → List A
rows_of (filled l) = l
rows_of _ = []

-- The listener of a device's button; a button that is missing or disabled has none.
unfoldable pub press : ℕ → Action → Bool → DeviceRow → Page → Page
press i rename confirmed row p = start_rename i row p
press i revoke confirmed row p =
    if enabled revoke (device_buttons row.device)
    then revoke_device confirmed row.device.id p
    else p
press i delete confirmed row p =
    if enabled delete (device_buttons row.device)
    then delete_device confirmed row.device.id p
    else p

unfoldable pub set_field : Field → Text → Page → Page
set_field password s p = record p { forms = record p.forms { password = s } }
set_field enroll_name s p = record p { forms = record p.forms { enroll_name = s } }
set_field rule_pattern s p = record p { forms = record p.forms { rule_pattern = s } }
set_field rule_category s p = record p { forms = record p.forms { rule_category = s } }
set_field key_label s p = record p { forms = record p.forms { key_label = s } }

abbrev is_form : ℕ → Option ℕ → Bool
is_form n none = false
is_form n (some m) = m == n

-- Whether the form of that number is still in the table.
unfoldable pub attached : ℕ → List DeviceRow → Bool
attached n [] = false
attached n (row ∷ rows) = is_form n row.form || attached n rows

-- The input of a rename form.
unfoldable pub type_name : ℕ → Text → Page → Page
type_name n s p = elim (get_elem? p.renames n) [
  | none ↦ p
  | some r ↦ record p { renames = set p.renames n (record r { input = s }) }
]

abbrev pub with_row {ℓ} : {A : Type ℓ} → Option A → (A → Page → Page) → Page → Page
with_row none f p = p
with_row (some a) f p = f a p

abbrev pub when : Bool → (Page → Page) → Page → Page
when b f p = if b then f p else p

-- The listeners.
unfoldable pub handle : Browser → ℕ → Input → Page → Page
unfolding press set_field attached type_name
handle b now submit_login p = do_login p
handle b now press_logout p = do_logout p
handle b now submit_enroll p = enroll_device p
handle b now submit_rule p = save_rule p
handle b now press_rule_cancel p = reset_rule_form p
handle b now submit_key p = create_key p
handle b now press_refresh p = render_dashboards b now p
handle b now press_modal_close p = hide_modal p
handle b now toast_timer p = toast_timeout p
handle b now modal_copied p = toast (codes "Copied to clipboard") false p
handle b now (press_nav name) p = switch_panel name p
handle b now (press_device i a confirmed) p =
    with_row (get_elem? (rows_of p.devices_table) i) (press i a confirmed) p
handle b now (type_rename n s) p = when (attached n (rows_of p.devices_table)) (type_name n s) p
handle b now (save_rename n) p = when (attached n (rows_of p.devices_table)) (submit n) p
handle b now (cancel_rename n) p = when (attached n (rows_of p.devices_table)) (finish n) p
handle b now (press_rule_edit i) p = with_row (get_elem? (rows_of p.rules_table) i) fill_rule_form p
handle b now (press_rule_delete i confirmed) p =
    with_row (get_elem? (rows_of p.rules_table) i) (λ r. delete_rule confirmed r.pattern) p
handle b now (press_key_revoke i confirmed) p =
    with_row (get_elem? (rows_of p.keys_table) i)
      (λ k. when (not (key_revoke_disabled k)) (revoke_key confirmed k.hash_prefix)) p
handle b now (choose_device s) p =
    render_dashboards b now (record p { selector = record p.selector { value = s } })
handle b now (choose_range r) p = render_dashboards b now (record p { range = r })
handle b now (type_field f s) p = set_field f s p
handle b now (check_apply c) p = record p { forms = record p.forms { rule_apply = c } }

-- One turn of the event loop.
pub data Step (b : Browser) (p : Page) : Page → Type 0 where
  handled : (now : ℕ) (x : Input) → Step b p (handle b now x p)
  delivered : (now i : ℕ) (a : Answer) → Step b p (deliver b now i a p)

-- The pages that can come about from loading the script.
pub data Reach (b : Browser) : Page → Type 0 where
  start : Reach b (bootstrap initial)
  next : {p q : Page} → Reach b p → Step b p q → Reach b q
