-- ===== src/Web/Page/Kept/Requests.antt =====
-- Every listener of the page keeps what its primitive operations keep.
use screwlogger.Base.{
  ℕ, ◌≡◌, refl, inl, inr, Bool, true, false, not, ◌||◌, Option, none, some, [], ◌∷◌, ◌++◌, arith,
  if◌then◌else◌, Option-cases, get_elem?, set, is_empty, Text, codes, concat, text_eq,
}
use screwlogger.Web.View.{devices, rules, keys, dashboards, Panel, clear_error}
use screwlogger.Web.Routes.{
  request_of, device_delete, device_revoke, device_rename, device_enroll, rule_upsert, rule_delete,
  key_create, key_revoke as key_revoke_route, usage, active_ratio, events, login as login_route,
  logout as logout_route,
}
use screwlogger.Web.Uri.Trim.{trim-trim}
use screwlogger.Web.Uri.{trim}
use screwlogger.Web.Page.Devices.{
  load_devices, delete_device, revoke_device, enroll_device, start_rename, finish, submit,
}
use screwlogger.Web.Page.Rules.{fill_rule_form, reset_rule_form, save_rule, delete_rule}
use screwlogger.Web.Page.Keys.{create_key, revoke_key}
use screwlogger.Web.Page.Dashboards.{device_part, send_jobs, render_dashboards}
use screwlogger.Web.Page.Session.{do_login, do_logout, switch_panel}
use screwlogger.Web.Net.{post, put, delete as delete_method, name_body}
use screwlogger.Web.Page.State.{
  hide_modal, toast, toast_timeout, device_deleted, device_revoked, device_renamed, key_revoked,
  dashboard_part, Rename, DeviceRow, api, Page,
}
use screwlogger.Web.Rows.{Action, rename, revoke, delete, device_buttons, key_revoke_disabled}
use screwlogger.Web.Rows.Buttons.{enabled}
use screwlogger.Web.Page.{
  handle, press, with_row, rows_of, attached, type_name, set_field, Field, password, Input,
  submit_login, press_logout, submit_enroll, submit_rule, press_rule_cancel, submit_key,
  press_refresh, press_modal_close, toast_timer, modal_copied, press_nav, press_device, type_rename,
  save_rename, cancel_rename, press_rule_edit, press_rule_delete, press_key_revoke, choose_device,
  choose_range, type_field, check_apply, Browser,
}
use screwlogger.Web.Page.Kept.{
  Invariant, Closed, Holds, ne_nil, Holds-if, Holds-split, Holds-with_uri, Holds-load_devices,
  Holds-load_rules, Holds-load_keys, Holds-load_dashboards,
}

module _ (Q : Invariant) (closed : Closed Q) where
  open closed use {send, switch, clear}

  Holds-delete_device :
      (c : Bool) (id : Text) (p : Page) → Holds Q p → Holds Q (delete_device c id p)
  unfolding delete_device api
  Holds-delete_device false id p h = h
  Holds-delete_device true id p h =
      Holds-with_uri Q closed id
        (λ e. api delete_method (concat (codes "/admin/api/devices/" ∷ e ∷ [])) none device_deleted)
        p h (λ e safe. send _ _ _ _ _ (device_delete e, safe, refl) h)

  Holds-revoke_device :
      (c : Bool) (id : Text) (p : Page) → Holds Q p → Holds Q (revoke_device c id p)
  unfolding revoke_device api
  Holds-revoke_device false id p h = h
  Holds-revoke_device true id p h =
      Holds-with_uri Q closed id
        (λ e.
          api post (concat (codes "/admin/api/devices/" ∷ e ∷ codes "/revoke" ∷ [])) none
            device_revoked)
        p h (λ e safe. send _ _ _ _ _ (device_revoke e, safe, refl) h)

  Holds-revoke_key : (c : Bool) (id : Text) (p : Page) → Holds Q p → Holds Q (revoke_key c id p)
  unfolding revoke_key api
  Holds-revoke_key false id p h = h
  Holds-revoke_key true id p h =
      Holds-with_uri Q closed id
        (λ e.
          api post (concat (codes "/admin/api/keys/" ∷ e ∷ codes "/revoke" ∷ [])) none key_revoked)
        p h (λ e safe. send _ _ _ _ _ (key_revoke_route e, safe, refl) h)

  Holds-delete_rule :
      (c : Bool) (pattern : Text) (p : Page) → Holds Q p → Holds Q (delete_rule c pattern p)
  unfolding delete_rule api
  Holds-delete_rule false pattern p h = h
  Holds-delete_rule true pattern p h = send _ _ _ _ _ (rule_delete pattern, tt, refl) h

  Holds-enroll_device : (p : Page) → Holds Q p → Holds Q (enroll_device p)
  unfolding enroll_device api
  Holds-enroll_device p h =
      Holds-split Q closed (is_empty (trim p.forms.enroll_name)) p _ (λ e. h)
        (λ e. send _ _ _ _ _ (device_enroll _, (ne_nil _ e, trim-trim _), refl) h)

  Holds-create_key : (p : Page) → Holds Q p → Holds Q (create_key p)
  unfolding create_key api
  Holds-create_key p h =
      Holds-split Q closed (is_empty (trim p.forms.key_label)) p _ (λ e. h)
        (λ e. send _ _ _ _ _ (key_create _, (ne_nil _ e, trim-trim _), refl) h)

  Holds-save_rule : (p : Page) → Holds Q p → Holds Q (save_rule p)
  unfolding save_rule api
  Holds-save_rule p h =
      let pattern = trim p.forms.rule_pattern in
      let category = trim p.forms.rule_category in
      Holds-split Q closed (is_empty pattern || is_empty category) p _ (λ e. h)
        (λ e.
          let both : (is_empty pattern ≡ false) × (is_empty category ≡ false) = ground arith in
          send _ _ _ _ _
            (
              rule_upsert pattern category _,
              ((ne_nil _ both.0, trim-trim _), (ne_nil _ both.1, trim-trim _)),
              refl,
            )
            h)

  pub Holds-finish : (n : ℕ) (p : Page) → Holds Q p → Holds Q (finish n p)
  unfolding finish
  Holds-finish n p h = on_form (get_elem? p.renames n)
    where
      on_form :
          (o : Option Rename)
          → Holds Q (elim o [
            | none ↦ p
            | some r ↦
                if r.done
                then p
                else load_devices
                    (record p { renames = set p.renames n (record r { done = true }) })
          ])
      on_form none = h
      on_form (some r) = Holds-if Q closed r.done _ _ h (Holds-load_devices Q closed _ h)

  Holds-submit : (n : ℕ) (p : Page) → Holds Q p → Holds Q (submit n p)
  unfolding submit api
  Holds-submit n p h = elim (Option-cases (get_elem? p.renames n)) [
    | inl e ↦ rw (e, submit) h
    | inr (r, e) ↦
        rw (e, submit)
          (let name = trim r.input in
            Holds-split Q closed (is_empty name || text_eq name r.device.name) (finish n p) _
              (λ same. Holds-finish n p h)
              (λ differs.
                Holds-with_uri Q closed r.device.id
                  (λ u.
                    api put (concat (codes "/admin/api/devices/" ∷ u ∷ codes "/name" ∷ []))
                      (some (name_body name)) (device_renamed n))
                  p h
                  (λ u safe.
                    send _ _ _ _ _
                      (
                        device_rename u name,
                        (safe, (ne_nil name (ground arith), trim-trim r.input)),
                        refl,
                      )
                      h)))
  ]

  Holds-start_rename :
      (i : ℕ) (row : DeviceRow) (p : Page) → Holds Q p → Holds Q (start_rename i row p)
  unfolding start_rename
  Holds-start_rename i row p h = elim (Option-cases row.form) [
    | inl e ↦ rw (e, start_rename) h
    | inr (n, e) ↦ rw (e, start_rename) h
  ]

  Holds-send_jobs : (n : ℕ) (q : Text) (p : Page) → Holds Q p → Holds Q (send_jobs n q p)
  unfolding send_jobs api
  Holds-send_jobs n q p h =
      let part = λ (i : ℕ). dashboard_part n i in
      let r1 = usage (concat (codes "group_by=category&" ∷ q ∷ [])) in
      let r2 = usage (concat (codes "group_by=app&" ∷ q ∷ [])) in
      let r3 = active_ratio (q ++ []) in
      let r4 = events (concat (codes "limit=10000&" ∷ q ∷ [])) in
      let h1 = send _ _ _ (request_of r1) (part 0) (r1, tt, refl) h in
      let h2 = send _ _ _ (request_of r2) (part 1) (r2, tt, refl) h1 in
      let h3 = send _ _ _ (request_of r3) (part 2) (r3, tt, refl) h2 in
      send _ _ _ (request_of r4) (part 3) (r4, tt, refl) h3

  pub Holds-render_dashboards :
      (b : Browser) (now : ℕ) (p : Page) → Holds Q p → Holds Q (render_dashboards b now p)
  unfolding render_dashboards
  Holds-render_dashboards b now p h = elim (Option-cases (device_part p.selector.value)) [
    | inl e ↦ rw (e, render_dashboards) h
    | inr (d, e) ↦ rw (e, render_dashboards) (Holds-send_jobs _ _ _ h)
  ]

  Holds-switch_panel : (name : Panel) (p : Page) → Holds Q p → Holds Q (switch_panel name p)
  unfolding switch_panel
  Holds-switch_panel devices p h = Holds-load_devices Q closed _ (switch _ _ _ _ h)
  Holds-switch_panel rules p h = Holds-load_rules Q closed _ (switch _ _ _ _ h)
  Holds-switch_panel keys p h = Holds-load_keys Q closed _ (switch _ _ _ _ h)
  Holds-switch_panel dashboards p h = Holds-load_dashboards Q closed _ (switch _ _ _ _ h)

  Holds-press :
      (i : ℕ) (a : Action) (c : Bool) (row : DeviceRow) (p : Page)
      → Holds Q p
      → Holds Q (press i a c row p)
  unfolding press
  Holds-press i rename c row p h = Holds-start_rename i row p h
  Holds-press i revoke c row p h =
      Holds-if Q closed (enabled revoke (device_buttons row.device)) _ p
        (Holds-revoke_device c row.device.id p h) h
  Holds-press i delete c row p h =
      Holds-if Q closed (enabled delete (device_buttons row.device)) _ p
        (Holds-delete_device c row.device.id p h) h

  -- A listener on a row that may be missing.
  Holds-with_row {ℓ} :
      {A : Type ℓ} (o : Option A) (f : A → Page → Page) (p : Page)
      → Holds Q p
      → ((a : A) → Holds Q (f a p))
      → Holds Q (with_row o f p)
  Holds-with_row none f p h k = h
  Holds-with_row (some a) f p h k = k a

  Holds-type_name : (n : ℕ) (s : Text) (p : Page) → Holds Q p → Holds Q (type_name n s p)
  unfolding type_name
  Holds-type_name n s p h = elim (Option-cases (get_elem? p.renames n)) [
    | inl e ↦ rw (e, type_name) h
    | inr (r, e) ↦ rw (e, type_name) h
  ]

  Holds-set_field : (f : Field) (s : Text) (p : Page) → Holds Q p → Holds Q (set_field f s p)
  unfolding set_field
  Holds-set_field password s p h = h
  Holds-set_field _ s p h = h

  pub handle-Holds :
      (b : Browser) (now : ℕ) (x : Input) (p : Page) → Holds Q p → Holds Q (handle b now x p)
  unfolding handle clear_error do_login api do_logout
  handle-Holds b now submit_login p h = send _ _ _ _ _ (login_route _, tt, refl) (clear _ _ _ h)
  handle-Holds b now press_logout p h = send _ _ _ _ _ (logout_route, tt, refl) h
  handle-Holds b now submit_enroll p h = Holds-enroll_device p h
  handle-Holds b now submit_rule p h = Holds-save_rule p h
  handle-Holds b now press_rule_cancel p h = unfold reset_rule_form in h
  handle-Holds b now submit_key p h = Holds-create_key p h
  handle-Holds b now press_refresh p h = Holds-render_dashboards b now p h
  handle-Holds b now press_modal_close p h = unfold hide_modal in h
  handle-Holds b now toast_timer p h = unfold toast_timeout in h
  handle-Holds b now modal_copied p h = unfold toast in h
  handle-Holds b now (press_nav name) p h = Holds-switch_panel name p h
  handle-Holds b now (press_device i a c) p h =
      Holds-with_row (get_elem? (rows_of p.devices_table) i) (press i a c) p h
        (λ row. Holds-press i a c row p h)
  handle-Holds b now (type_rename n s) p h =
      Holds-if Q closed (attached n (rows_of p.devices_table)) _ p (Holds-type_name n s p h) h
  handle-Holds b now (save_rename n) p h =
      Holds-if Q closed (attached n (rows_of p.devices_table)) _ p (Holds-submit n p h) h
  handle-Holds b now (cancel_rename n) p h =
      Holds-if Q closed (attached n (rows_of p.devices_table)) _ p (Holds-finish n p h) h
  handle-Holds b now (press_rule_edit i) p h =
      Holds-with_row (get_elem? (rows_of p.rules_table) i) fill_rule_form p h
        (λ r. unfold fill_rule_form in h)
  handle-Holds b now (press_rule_delete i c) p h =
      Holds-with_row (get_elem? (rows_of p.rules_table) i) (λ r. delete_rule c r.pattern) p h
        (λ r. Holds-delete_rule c r.pattern p h)
  handle-Holds b now (press_key_revoke i c) p h =
      Holds-with_row (get_elem? (rows_of p.keys_table) i) _ p h (λ k.
        Holds-if Q closed (not (key_revoke_disabled k)) _ p (Holds-revoke_key c k.hash_prefix p h)
          h)
  handle-Holds b now (choose_device s) p h = Holds-render_dashboards b now _ h
  handle-Holds b now (choose_range r) p h = Holds-render_dashboards b now _ h
  handle-Holds b now (type_field f s) p h = Holds-set_field f s p h
  handle-Holds b now (check_apply c) p h = h
