-- ===== src/Web/Page/Kept.antt =====
-- One traversal of the page's operations for every property of the views, the charts and the waiting
-- requests that their primitive operations keep.
pub mod Requests
pub mod Answers
use screwlogger.Base.{
  ℕ, ◌≡◌, refl, sym, ◌≢◌, inl, inr, Bool, true, false, none, some, List, [], ◌∷◌, ◌++◌, ◌==◌,
  if◌then◌else◌, Option-cases, is_empty, Text,
}
use screwlogger.Web.View.{
  devices, rules, keys, dashboards, View, Panel, show_login, show_app, switch_view, clear_error,
  show_error,
}
use screwlogger.Web.Charts.{Charts, Canvas, Config, render}
use screwlogger.Web.Net.{Request, Response, get, post, put, delete as delete_method, name_body}
use screwlogger.Web.Routes.{
  request_of, IsRouted, device_list, rule_list, key_list, device_delete, device_revoke,
  device_rename, device_enroll, rule_upsert, rule_delete, key_create,
  key_revoke as key_revoke_route, usage, active_ratio, events, login as login_route,
  logout as logout_route,
}
use mathlib.Core.Path.{subst}
use screwlogger.Web.Uri.Segment.{IsSegment, encode_uri_component-IsSegment}
use screwlogger.Web.Uri.{encode_uri_component, trim}
use screwlogger.Web.Page.Devices.{
  with_uri, load_devices, on_devices, delete_device, on_device_deleted, revoke_device,
  on_device_revoked, enroll_device, on_device_enrolled, start_rename, finish, submit,
  on_device_renamed,
}
use screwlogger.Web.Page.Rules.{
  load_rules, on_rules, fill_rule_form, reset_rule_form, save_rule, on_rule_saved, delete_rule,
  on_rule_deleted,
}
use screwlogger.Web.Page.Keys.{
  load_keys, on_keys, create_key, on_key_created, revoke_key, on_key_revoked,
}
use screwlogger.Web.Page.Dashboards.{
  device_part, send_jobs, load_dashboards, on_selector, render_dashboards, on_part,
}
use screwlogger.Web.Page.Session.{
  bootstrap, on_bootstrapped, do_login, on_logged_in, do_logout, on_logged_out, switch_panel,
}
use screwlogger.Web.Page.State.{
  hide_modal, toast_timeout, device_deleted, device_revoked, device_renamed, key_revoked,
  dashboard_part, Rename, DeviceRow, api, Page, Pending, Callback, if_authed,
}
use screwlogger.Web.Rows.{Action, rename, revoke, delete, device_buttons, key_revoke_disabled}
use screwlogger.Web.Rows.Buttons.{enabled}
use screwlogger.Web.Page.{
  handle, press, with_row, rows_of, attached, type_name, set_field, when, Field, password, Input,
  submit_login, press_logout, submit_enroll, submit_rule, press_rule_cancel, submit_key,
  press_refresh, press_modal_close, toast_timer, press_nav, press_device, type_rename, save_rename,
  cancel_rename, press_rule_edit, press_rule_delete, press_key_revoke, choose_device, choose_range,
  type_field, check_apply, Browser, remove_at,
}

abbrev pub Invariant : Type 1
Invariant = View → Charts → List Pending → Type 0

abbrev pub waiting : Request → Callback → Pending
waiting r k = record { request = r; callback = k }

-- What the primitive operations have to keep.
pub record Closed (Q : Invariant) : Type 0 where
  pub send :
      (v : View) (c : Charts) (ps : List Pending) (r : Request) (k : Callback)
      → IsRouted r
      → Q v c ps
      → Q v c (ps ++ waiting r k ∷ [])
  pub answer :
      (v : View) (c : Charts) (ps : List Pending) (i : ℕ) → Q v c ps → Q v c (remove_at i ps)
  pub draw :
      (v : View) (c : Charts) (ps : List Pending) (loaded : Bool) (place : Canvas) (empty : Bool)
      (config : Config)
      → Q v c ps
      → Q v (render loaded place empty config c).0 ps
  pub login : (v : View) (c : Charts) (ps : List Pending) → Q v c ps → Q (show_login v) c ps
  pub enter : (v : View) (c : Charts) (ps : List Pending) → Q v c ps → Q (show_app v) c ps
  pub switch :
      (name : Panel) (v : View) (c : Charts) (ps : List Pending)
      → Q v c ps
      → Q (switch_view name v) c ps
  pub clear : (v : View) (c : Charts) (ps : List Pending) → Q v c ps → Q (clear_error v) c ps
  pub fail :
      (m : Text) (v : View) (c : Charts) (ps : List Pending) → Q v c ps → Q (show_error m v) c ps

-- The property, of a page.
abbrev pub Holds : Invariant → Page → Type 0
Holds Q p = Q p.view p.charts p.pending

pub ne_nil : (s : Text) → is_empty s ≡ false → s ≢ []
ne_nil [] e q = cc
ne_nil (c ∷ s) e q = cc

module _ (Q : Invariant) (closed : Closed Q) where
  open closed use {send, answer, draw, login, enter, switch, clear, fail}

  -- A choice between two pages.
  pub Holds-if : (b : Bool) (p q : Page) → Holds Q p → Holds Q q → Holds Q (if b then p else q)
  Holds-if true p q h k = h
  Holds-if false p q h k = k

  pub Holds-split :
      (b : Bool) (p q : Page)
      → (b ≡ true → Holds Q p)
      → (b ≡ false → Holds Q q)
      → Holds Q (if b then p else q)
  Holds-split true p q h k = h refl
  Holds-split false p q h k = k refl

  pub Holds-if_authed :
      (res : Response) (rest : Page → Page) (p : Page)
      → Holds Q p
      → Holds Q (rest p)
      → Holds Q (if_authed res rest p)
  unfolding if_authed
  Holds-if_authed res rest p h k =
      Holds-if (res.status == 401) _ _ (login _ _ _ h) (Holds-if res.ok (rest p) _ k h)

  pub Holds-with_uri :
      (s : Text) (f : Text → Page → Page) (p : Page)
      → Holds Q p
      → ((e : Text) → IsSegment e → Holds Q (f e p))
      → Holds Q (with_uri s f p)
  Holds-with_uri s f p h k = elim (Option-cases (encode_uri_component s)) [
    | inl e ↦ subst (λ o. Holds Q (elim o [ none ↦ p | some e ↦ f e p ])) (sym e) h
    | inr (t, e) ↦
        subst (λ o. Holds Q (elim o [ none ↦ p | some e ↦ f e p ])) (sym e)
          (k t (encode_uri_component-IsSegment s t e))
  ]

  pub Holds-load_devices : (p : Page) → Holds Q p → Holds Q (load_devices p)
  unfolding load_devices api
  Holds-load_devices p h = send _ _ _ _ _ (device_list, tt, refl) h

  pub Holds-load_rules : (p : Page) → Holds Q p → Holds Q (load_rules p)
  unfolding load_rules api
  Holds-load_rules p h = send _ _ _ _ _ (rule_list, tt, refl) h

  pub Holds-load_keys : (p : Page) → Holds Q p → Holds Q (load_keys p)
  unfolding load_keys api
  Holds-load_keys p h = send _ _ _ _ _ (key_list, tt, refl) h

  pub Holds-load_dashboards : (p : Page) → Holds Q p → Holds Q (load_dashboards p)
  unfolding load_dashboards api
  Holds-load_dashboards p h = send _ _ _ _ _ (device_list, tt, refl) h
