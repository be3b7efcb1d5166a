-- ===== src/Web/Page/Kept/Answers.antt =====
-- Every callback of the page keeps what its primitive operations keep; so does every step.
use screwlogger.Base.{
  ℕ, inl, inr, Bool, false, not, Option, some, List, [], ◌∷◌, ◌==◌, Option-cases, get_elem?, set,
  is_empty, Text, codes, concat,
}
use screwlogger.Web.View.{View}
use screwlogger.Web.Wire.{Bucket, Ratio, Event}
use screwlogger.Web.Charts.{
  Canvas, Charts, category, app, ratio, hourly, render_bar, render_ratio, render_hourly,
}
use screwlogger.Web.Net.{
  Response, Answer, settle, failure_message, buckets_of, ratio_of, events_of, devices_of,
  recategorized_of,
}
use screwlogger.Web.Select.{populate}
use screwlogger.Web.Format.{Browser, hour_label}
use screwlogger.Web.Page.State.{
  Page, Pending, Callback, toast, show_secret, bootstrapped, logged_in, logged_out, got_devices,
  device_revoked, device_deleted, device_renamed, device_enrolled, got_rules, rule_saved,
  rule_deleted, got_keys, key_revoked, key_created, got_selector, dashboard_part, initial,
}
use screwlogger.Web.Page.Devices.{
  then_devices, then_device_revoked, then_device_deleted, then_device_renamed, then_device_enrolled,
  on_devices, on_device_deleted, on_device_revoked, on_device_enrolled, on_device_renamed,
}
use screwlogger.Web.Page.Rules.{
  remapped, then_rules, then_rule_saved, then_rule_deleted, on_rules, reset_rule_form,
  on_rule_saved, on_rule_deleted,
}
use screwlogger.Web.Page.Keys.{
  then_keys, then_key_created, then_key_revoked, on_keys, on_key_created, on_key_revoked,
}
use screwlogger.Web.Page.Dashboards.{
  then_selector, on_selector, on_part, draw, draw_charts, draw_all, resolve,
}
use screwlogger.Web.Page.Session.{
  enter_page, bootstrap, on_bootstrapped, on_logged_in, on_logged_out,
}
use screwlogger.Web.Page.{
  resume, report, remove_at, deliver, Step, handled, delivered, Reach, start, next,
}
use screwlogger.Web.Page.Kept.{
  Invariant, Closed, Holds, Holds-if, Holds-if_authed, Holds-load_devices, Holds-load_rules,
  Holds-load_keys,
}
use screwlogger.Web.Page.Kept.Requests.{Holds-finish, Holds-render_dashboards, handle-Holds}

module _ (Q : Invariant) (closed : Closed Q) where
  open closed use {answer, draw as rendered, login, enter, fail}

  Holds-enter : (p : Page) → Holds Q p → Holds Q (enter_page p)
  Holds-enter p h = Holds-load_devices Q closed _ (enter _ _ _ h)

  Holds-on_bootstrapped : (res : Response) (p : Page) → Holds Q p → Holds Q (on_bootstrapped res p)
  unfolding on_bootstrapped
  Holds-on_bootstrapped res p h =
      Holds-if Q closed (res.status == 401) _ _ (login _ _ _ h) (Holds-enter p h)

  Holds-on_logged_in : (res : Response) (p : Page) → Holds Q p → Holds Q (on_logged_in res p)
  unfolding on_logged_in
  Holds-on_logged_in res p h =
      Holds-if Q closed (res.status == 401) _ _ (fail _ _ _ _ h)
        (Holds-if Q closed (not res.ok) _ _ (fail _ _ _ _ h) (Holds-enter _ h))

  Holds-draw :
      (f : Charts → Charts × Bool) (p : Page)
      → Q p.view (f p.charts).0 p.pending
      → Holds Q (draw f p)
  unfolding draw toast
  Holds-draw f p h = Holds-if Q closed (f p.charts).1 _ _ h h

  module _ (v : View) (c : Charts) (ps : List Pending) (h : Q v c ps) where
    render_bar-kept :
        (loaded : Bool) (place : Canvas) (title : Text) (bs : List Bucket)
        → Q v (render_bar loaded place title bs c).0 ps
    unfolding render_bar
    render_bar-kept loaded place title bs = rendered v c ps loaded place (is_empty bs) _ h

    render_ratio-kept : (loaded : Bool) (r : Option Ratio) → Q v (render_ratio loaded r c).0 ps
    unfolding render_ratio
    render_ratio-kept loaded r = rendered v c ps loaded ratio _ _ h

    render_hourly-kept :
        (label : ℕ → Text) (loaded : Bool) (evs : List Event) (to : ℕ)
        → Q v (render_hourly label loaded evs to c).0 ps
    unfolding render_hourly
    render_hourly-kept label loaded evs to = rendered v c ps loaded hourly (is_empty evs) _ h

  Holds-draw_all :
      (b : Browser) (to : ℕ) (r0 r1 r2 r3 : Response) (p : Page)
      → Holds Q p
      → Holds Q (draw_all b to r0 r1 r2 r3 p)
  unfolding draw_all
  Holds-draw_all b to r0 r1 r2 r3 p h =
      Holds-if_authed Q closed r0 (draw_charts b to r0 r1 r2 r3) p h h3
    where
      f0 : Charts → Charts × Bool
      f0 = render_bar b.chart_loaded category (codes "category") (buckets_of r0.payload)

      f1 : Charts → Charts × Bool
      f1 = render_bar b.chart_loaded app (codes "app") (buckets_of r1.payload)

      f2 : Charts → Charts × Bool
      f2 = render_ratio b.chart_loaded (ratio_of r2.payload)

      f3 : Charts → Charts × Bool
      f3 = render_hourly (hour_label b) b.chart_loaded (events_of r3.payload) to

      h0 : Holds Q (draw f0 p)
      h0 = Holds-draw f0 p (
          render_bar-kept _ _ _ h b.chart_loaded category (codes "category")
            (buckets_of r0.payload))

      h1 : Holds Q (draw f1 (draw f0 p))
      h1 =
          Holds-draw f1 (draw f0 p)
            (render_bar-kept _ _ _ h0 b.chart_loaded app (codes "app") (buckets_of r1.payload))

      h2 : Holds Q (draw f2 (draw f1 (draw f0 p)))
      h2 =
          Holds-draw f2 (draw f1 (draw f0 p))
            (render_ratio-kept _ _ _ h1 b.chart_loaded (ratio_of r2.payload))

      h3 : Holds Q (draw f3 (draw f2 (draw f1 (draw f0 p))))
      h3 =
          Holds-draw f3 (draw f2 (draw f1 (draw f0 p)))
            (render_hourly-kept _ _ _ h2 (hour_label b) b.chart_loaded (events_of r3.payload) to)

  Holds-resolve :
      (b : Browser) (to : ℕ) (rs : List (Option Response)) (p : Page)
      → Holds Q p
      → Holds Q (resolve b to rs p)
  unfolding resolve
  Holds-resolve b to (some r0 ∷ some r1 ∷ some r2 ∷ some r3 ∷ []) p h =
      Holds-draw_all b to r0 r1 r2 r3 p h
  Holds-resolve b to _ p h = h

  Holds-on_part :
      (b : Browser) (n i : ℕ) (res : Response) (p : Page)
      → Holds Q p
      → Holds Q (on_part b n i res p)
  unfolding on_part
  Holds-on_part b n i res p h = elim (Option-cases (get_elem? p.batches n)) [
    | inl e ↦ rw (e, on_part) h
    | inr (batch, e) ↦
        rw (e, on_part)
          (let answers = set batch.answers i (some res) in
            Holds-resolve b batch.to answers
              (record p { batches = set p.batches n (record batch { answers = answers }) }) h)
  ]

  resume-Holds :
      (b : Browser) (now : ℕ) (k : Callback) (res : Response) (p : Page)
      → Holds Q p
      → Holds Q (resume b now k res p)
  unfolding resume on_logged_out on_devices on_device_revoked on_device_deleted on_device_renamed
      on_device_enrolled on_rules on_rule_saved on_rule_deleted on_keys on_key_revoked
      on_key_created on_selector toast show_secret reset_rule_form
  resume-Holds b now bootstrapped res p h = Holds-on_bootstrapped res p h
  resume-Holds b now logged_in res p h = Holds-on_logged_in res p h
  resume-Holds b now logged_out res p h = login _ _ _ h
  resume-Holds b now got_devices res p h = Holds-if_authed Q closed res (then_devices res) p h h
  resume-Holds b now device_revoked res p h =
      Holds-if_authed Q closed res then_device_revoked p h
        (Holds-load_devices Q closed (toast (codes "Device revoked") false p) h)
  resume-Holds b now device_deleted res p h =
      Holds-if_authed Q closed res then_device_deleted p h
        (Holds-load_devices Q closed (toast (codes "Device deleted") false p) h)
  resume-Holds b now (device_renamed n) res p h =
      Holds-if_authed Q closed res (then_device_renamed n) p h
        (Holds-finish Q closed n (toast (codes "Device renamed") false p) h)
  resume-Holds b now (device_enrolled name) res p h =
      Holds-if_authed Q closed res (then_device_enrolled name res) p h
        (Holds-load_devices Q closed (record p { forms = record p.forms { enroll_name = [] } }) h)
  resume-Holds b now got_rules res p h = Holds-if_authed Q closed res (then_rules res) p h h
  resume-Holds b now rule_saved res p h = Holds-if_authed Q closed res (then_rule_saved res) p h (
      Holds-load_rules Q closed
        (toast (concat (codes "Rule saved" ∷ remapped (recategorized_of res.payload) ∷ [])) false
          (reset_rule_form p))
        h)
  resume-Holds b now rule_deleted res p h =
      Holds-if_authed Q closed res then_rule_deleted p h
        (Holds-load_rules Q closed (toast (codes "Rule deleted") false p) h)
  resume-Holds b now got_keys res p h = Holds-if_authed Q closed res (then_keys res) p h h
  resume-Holds b now key_revoked res p h =
      Holds-if_authed Q closed res then_key_revoked p h
        (Holds-load_keys Q closed (toast (codes "API key revoked") false p) h)
  resume-Holds b now (key_created label) res p h =
      Holds-if_authed Q closed res (then_key_created label res) p h
        (Holds-load_keys Q closed (record p { forms = record p.forms { key_label = [] } }) h)
  resume-Holds b now got_selector res p h =
      Holds-if_authed Q closed res (then_selector b now res) p h (
        Holds-render_dashboards Q closed b now
          (record p { selector = populate (devices_of res.payload) p.selector }) h)
  resume-Holds b now (dashboard_part n i) res p h = Holds-on_part b n i res p h

  Holds-report : (a : Answer) (p : Page) → Holds Q p → Holds Q (report a p)
  unfolding report toast
  Holds-report a p h = elim (Option-cases (failure_message a)) [
    | inl e ↦ rw (e, report) h
    | inr (m, e) ↦ rw (e, report) h
  ]

  deliver-Holds :
      (b : Browser) (now i : ℕ) (a : Answer) (p : Page) → Holds Q p → Holds Q (deliver b now i a p)
  unfolding deliver
  deliver-Holds b now i a p h = elim (Option-cases (get_elem? p.pending i)) [
    | inl e ↦ rw (e, deliver) h
    | inr (w, e) ↦
        rw (e, deliver)
          (let rest = record p { pending = remove_at i p.pending } in
            resume-Holds b now w.callback (settle a) (report a rest)
              (Holds-report a rest (answer _ _ _ i h)))
  ]

  Step-Holds : (b : Browser) {p q : Page} → Step b p q → Holds Q p → Holds Q q
  Step-Holds b {p} (handled now x) h = handle-Holds Q closed b now x p h
  Step-Holds b {p} (delivered now i a) h = deliver-Holds b now i a p h

  -- What holds of the page once the script has been loaded holds of every page that comes about.
  pub Reach-Holds : (b : Browser) {p : Page} → Holds Q (bootstrap initial) → Reach b p → Holds Q p
  Reach-Holds b h start = h
  Reach-Holds b h (next r s) = Step-Holds b s (Reach-Holds b h r)
