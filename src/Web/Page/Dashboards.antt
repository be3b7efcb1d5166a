-- ===== src/Web/Page/Dashboards.antt =====
-- The dashboards panel of internal/server/web/app.js: `loadDashboards` and `renderDashboards`. The
-- four requests of `renderDashboards` are answered one by one, in any order; the callback of
-- `Promise.all` runs with the last of them.
use screwlogger.Base.{
  ℕ, Bool, true, Option, none, some, List, [], ◌∷◌, ◌++◌, if◌then◌else◌, length, get_elem?, set,
  Text, codes, concat, ℤ,
}
use screwlogger.Web.Net.{Response, get, devices_of, buckets_of, events_of, ratio_of}
use screwlogger.Web.Uri.{encode_uri_component}
use screwlogger.Web.Format.{Browser, hour_label}
use screwlogger.Web.Select.{populate, range_window, show_ℤ}
use screwlogger.Web.Format.Decimal.{show}
use screwlogger.Web.Charts.{Charts, category, app, render_bar, render_ratio, render_hourly}
use screwlogger.Web.Page.State.{Page, api, toast, if_authed, got_selector, dashboard_part}

-- `loadDashboards`
unfoldable pub load_dashboards : Page → Page
load_dashboards p = api get (codes "/admin/api/devices") none got_selector p

-- `"&device=" + encodeURIComponent(device)`, or nothing for all devices; `none` if it throws.
unfoldable pub device_part : Text → Option Text
device_part [] = some []
device_part (c ∷ s) = elim (encode_uri_component (c ∷ s)) [
  | none ↦ none
  | some e ↦ some (concat (codes "&device=" ∷ e ∷ []))
]

-- `q` of `renderDashboards`
unfoldable pub query : ℤ → ℕ → Text → Text
query from to device = concat (codes "from=" ∷ show_ℤ from ∷ codes "&to=" ∷ show to ∷ device ∷ [])

-- The array `jobs`: four requests, for the batch of that number.
unfoldable pub send_jobs : ℕ → Text → Page → Page
send_jobs n q p =
    let path = λ (s : Text). concat (codes "/admin/api/" ∷ s ∷ q ∷ []) in
    let p1 = api get (path (codes "usage?group_by=category&")) none (dashboard_part n 0) p in
    let p2 = api get (path (codes "usage?group_by=app&")) none (dashboard_part n 1) p1 in
    let p3 = api get (path (codes "active-ratio?")) none (dashboard_part n 2) p2 in
    api get (path (codes "events?limit=10000&")) none (dashboard_part n 3) p3

-- `renderDashboards`, at a time in milliseconds.
unfoldable pub render_dashboards : Browser → ℕ → Page → Page
unfolding send_jobs
render_dashboards b now p =
    let w = range_window b now p.range in
    elim (device_part p.selector.value) [
      | none ↦ p
      | some device ↦ send_jobs (length p.batches) (query w.from w.to device) (record p {
        batches = p.batches ++ record { to = w.to; answers = none ∷ none ∷ none ∷ none ∷ [] } ∷ [];
      })
    ]

-- The rest of the callback, for an answer that `authed` lets through.
unfoldable pub then_selector : Browser → ℕ → Response → Page → Page
unfolding render_dashboards
then_selector b now res p =
    render_dashboards b now (record p { selector = populate (devices_of res.payload) p.selector })

unfoldable pub on_selector : Browser → ℕ → Response → Page → Page
unfolding if_authed then_selector
on_selector b now res = if_authed res (then_selector b now res)

-- A render function on the charts of the page; a failure of `ensureChart` shows a message.
unfoldable pub draw : (Charts → Charts × Bool) → Page → Page
draw f p =
    let q = record p { charts = (f p.charts).0 } in
    if (f p.charts).1 then toast (codes "Chart.js failed to load") true q else q

-- The four calls at the end of `renderDashboards`, on the array of answers.
unfoldable pub draw_charts : Browser → ℕ → (r0 r1 r2 r3 : Response) → Page → Page
draw_charts b to r0 r1 r2 r3 p =
    draw (render_hourly (hour_label b) b.chart_loaded (events_of r3.payload) to) (
      draw (render_ratio b.chart_loaded (ratio_of r2.payload)) (
        draw (render_bar b.chart_loaded app (codes "app") (buckets_of r1.payload))
          (draw (render_bar b.chart_loaded category (codes "category") (buckets_of r0.payload)) p)))

-- The callback of `Promise.all`, which looks at the first answer only.
unfoldable pub draw_all : Browser → ℕ → (r0 r1 r2 r3 : Response) → Page → Page
unfolding if_authed draw_charts
draw_all b to r0 r1 r2 r3 = if_authed r0 (draw_charts b to r0 r1 r2 r3)

-- `Promise.all` resolves once every answer is there.
unfoldable pub resolve : Browser → ℕ → List (Option Response) → Page → Page
unfolding draw_all
resolve b to (some r0 ∷ some r1 ∷ some r2 ∷ some r3 ∷ []) p = draw_all b to r0 r1 r2 r3 p
resolve b to _ p = p

-- An answer of the batch `n`, at index `i` of its array.
unfoldable pub on_part : Browser → ℕ → ℕ → Response → Page → Page
unfolding resolve
on_part b n i res p = elim (get_elem? p.batches n) [
  | none ↦ p
  | some batch ↦
      let answers = set batch.answers i (some res) in
      resolve b batch.to answers
        (record p { batches = set p.batches n (record batch { answers = answers }) })
]
