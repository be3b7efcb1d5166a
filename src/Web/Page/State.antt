-- ===== src/Web/Page/State.antt =====
-- The state of the page that internal/server/web/app.js keeps in the DOM and in its closures, and
-- the operations that all parts use: `toast`, `api`, `authed`, `showSecret` and `hideModal`.
use screwlogger.Base.{
  ℕ, Bool, true, false, Option, List, [], ◌∷◌, ◌++◌, ◌==◌, if◌then◌else◌, is_empty, Text, codes,
  concat,
}
use screwlogger.Web.Wire.{Device, Rule, Key}
use screwlogger.Web.View.{View, initial_view, show_login}
use screwlogger.Web.Charts.{Charts, no_charts}
use screwlogger.Web.Select.{Select, Preset, days7}
use screwlogger.Web.Net.{Method, Request, Body, Response, error_of, make_request}
use screwlogger.Web.Format.Decimal.{show}

-- The callbacks that wait for an answer, each with what its closure holds.
pub data Callback : Type 0 where
  bootstrapped logged_in logged_out : Callback
  got_devices device_revoked device_deleted : Callback
  device_renamed : ℕ → Callback
  device_enrolled : Text → Callback
  got_rules rule_saved rule_deleted : Callback
  got_keys key_revoked : Callback
  key_created : Text → Callback
  got_selector : Callback
  -- an entry of the array given to `Promise.all`, by the number of the batch and the index
  dashboard_part : ℕ → ℕ → Callback

pub record Pending : Type 0 where
  pub request : Request
  pub callback : Callback

-- The body of a table: as loaded, the row that says that there is nothing, or rows.
pub data Table (A : Type 0) : Type 0 where
  blank : Table A
  no_rows : Table A
  filled : List A → Table A

-- A row of the devices table; while it is renamed, the number of the rename form.
pub record DeviceRow : Type 0 where
  pub device : Device
  pub form : Option ℕ

-- The closure of `startRename`: the device, the text of its input, and `done`.
pub record Rename : Type 0 where
  pub device : Device
  pub input : Text
  pub done : Bool

-- One run of `renderDashboards`: the end of its window and the answers that have come.
pub record Batch : Type 0 where
  pub to : ℕ
  pub answers : List (Option Response)

pub record Toast : Type 0 where
  pub message : Text
  pub is_err : Bool
  pub hidden : Bool
  -- whether the timer that hides it is running
  pub timer : Bool

pub record Modal : Type 0 where
  pub hidden : Bool
  pub title : Text
  pub secret : Text

pub record Forms : Type 0 where
  pub password : Text
  pub enroll_name : Text
  pub rule_pattern : Text
  pub rule_category : Text
  pub rule_apply : Bool
  pub rule_cancel_hidden : Bool
  pub key_label : Text

pub record Page : Type 0 where
  pub view : View
  pub toast : Toast
  pub modal : Modal
  pub forms : Forms
  pub selector : Select
  pub range : Preset
  pub devices_table : Table DeviceRow
  pub rules_table : Table Rule
  pub keys_table : Table Key
  pub charts : Charts
  pub renames : List Rename
  pub batches : List Batch
  pub pending : List Pending

-- As index.html has it, before `bootstrap` runs.
abbrev pub initial : Page
initial = record {
  view = initial_view;
  toast = record { message = []; is_err = false; hidden = true; timer = false };
  modal = record { hidden = true; title = codes "Secret"; secret = [] };
  forms = record {
    password = [];
    enroll_name = [];
    rule_pattern = [];
    rule_category = [];
    rule_apply = false;
    rule_cancel_hidden = true;
    key_label = [];
  };
  selector = record { entries = []; value = [] };
  range = days7;
  devices_table = blank;
  rules_table = blank;
  keys_table = blank;
  charts = no_charts;
  renames = [];
  batches = [];
  pending = [];
}

-- `toast`: the running timer is stopped and a new one started.
unfoldable pub toast : Text → Bool → Page → Page
toast message is_err p = record p {
  toast = record { message = message; is_err = is_err; hidden = false; timer = true };
}

-- The timer of `toast`.
unfoldable pub toast_timeout : Page → Page
toast_timeout p = record p {
  toast = record p.toast { hidden = if p.toast.timer then true else p.toast.hidden; timer = false };
}

-- The call of `fetch` in `api`, with the callback of its promise.
unfoldable pub api : Method → Text → Option Body → Callback → Page → Page
api m path body k p = record p {
  pending = p.pending ++ record { request = make_request m path body; callback = k } ∷ [];
}

-- The message of `authed`: that of the answer, if there is one, or the status.
unfoldable pub error_message : Response → Text
error_message res =
    if is_empty (error_of res.payload)
    then concat (codes "HTTP " ∷ show res.status ∷ [])
    else error_of res.payload

abbrev pub login_page : Page → Page
login_page p = record p { view = show_login p.view }

-- `if (!authed(res)) return;` and what follows it.
unfoldable pub if_authed : Response → (Page → Page) → Page → Page
unfolding toast error_message
if_authed res rest p =
    if res.status == 401
    then login_page p
    else if res.ok
    then rest p
    else toast (error_message res) true p

-- `showSecret`
unfoldable pub show_secret : Text → Text → Page → Page
show_secret title secret p = record p {
  modal = record { hidden = false; title = title; secret = secret };
}

-- `hideModal`
unfoldable pub hide_modal : Page → Page
hide_modal p = record p { modal = record p.modal { hidden = true } }
