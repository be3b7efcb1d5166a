-- ===== src/Web/Examples/Pages.antt =====
-- Pages of internal/server/web/app.js: loading, an answer, a session that ends, a dashboard, a rename
-- form.
use screwlogger.Base.{
  ℕ, ◌≡◌, refl, ◌≢◌, true, false, not, ◌&&◌, none, some, List, [], ◌∷◌, ◌++◌, map, arith,
  if◌then◌else◌, get_elem?, is_empty, All, Text, codes,
}
use screwlogger.Web.Wire.{Bucket}
use screwlogger.Web.View.{IsWhole, dashboards}
use screwlogger.Web.Routes.{IsRouted}
use screwlogger.Web.Net.{Request, nothing, error, token, devices, answered, settle, get}
use screwlogger.Web.Charts.{Canvas, category, Config, no_charts, render_bar}
use screwlogger.Web.Charts.Registry.{NoLeak, no_charts-NoLeak}
use screwlogger.Web.Charts.Render.{shown, shown-render_bar}
use screwlogger.Web.Page.State.{
  dashboard_part, Page, Pending, Batch, initial, device_enrolled, got_devices,
}
use screwlogger.Web.Page.Session.{bootstrap}
use screwlogger.Web.Page.{
  Reach, start, next, handled, delivered, deliver, handle, resume, remove_at, press_nav,
  press_refresh,
}
use screwlogger.Web.Page.Reachable.{Reach-IsRouted, Reach-IsWhole, Reach-NoLeak}
use screwlogger.Web.Page.Expiry.{deliver_refused, IsRefusal, refusal_text, IsSameElsewhere}
use screwlogger.Web.Page.Order.{deliver_comm}
use screwlogger.Web.Charts.Render.{color_of_bar}
use screwlogger.Web.Charts.{bar}
use screwlogger.Web.Options.{bar_options}
use screwlogger.Web.Net.{Payload}
use screwlogger.Web.Page.Secret.{modal-resume, modal_after}
use screwlogger.Web.Examples.Texts.{plain, hostile}

-- The first answer enters the application, which asks for the devices.
abbrev entered : Page
entered = deliver plain 0 0 (answered 200 (devices [])) (bootstrap initial)

-- The devices have come and the operator has opened the dashboards.
abbrev opened : Page
opened =
    handle plain 0 (press_nav dashboards)
      (deliver plain 0 0 (answered 200 (devices (hostile ∷ []))) entered)

-- The charts are asked for.
abbrev asked : Page
asked = handle plain 1700000000000 press_refresh opened

entered-Reach : Reach plain entered
entered-Reach = next start (delivered 0 0 (answered 200 (devices [])))

opened-Reach : Reach plain opened
opened-Reach =
    next (next entered-Reach (delivered 0 0 (answered 200 (devices (hostile ∷ [])))))
      (handled 0 (press_nav dashboards))

asked-Reach : Reach plain asked
asked-Reach = next opened-Reach (handled 1700000000000 press_refresh)

Reach-IsRouted_example : All (λ w. IsRouted w.request) asked.pending
Reach-IsRouted_example = Reach-IsRouted plain asked asked-Reach

Reach-IsWhole_example : IsWhole asked.view
Reach-IsWhole_example = Reach-IsWhole plain asked asked-Reach

Reach-NoLeak_example : NoLeak asked.charts
Reach-NoLeak_example = Reach-NoLeak plain asked asked-Reach

-- A dashboard two of whose answers are missing.
abbrev waiting_batch : Batch
waiting_batch = record {
  to = 1700000000;
  answers =
      none
      ∷ some (settle (answered 200 nothing))
      ∷ some (settle (answered 200 nothing))
      ∷ none
      ∷ [];
}

abbrev part_request : Text → Request
part_request path = record { method = get; path = path; content_type = none; body = none }

abbrev part : Text → ℕ → Pending
part path i = record { request = part_request path; callback = dashboard_part 0 i }

abbrev waiting_page : Page
waiting_page = record initial {
  batches = waiting_batch ∷ [];
  pending = part (codes "/admin/api/usage?") 0 ∷ part (codes "/admin/api/events?") 3 ∷ [];
}

abbrev broken : Payload
broken = error (codes "internal error")

deliver_comm_example :
    deliver plain 2 0 (answered 500 broken) (deliver plain 1 0 (answered 200 nothing) waiting_page)
    ≡ deliver plain 4 0
        (answered 200 nothing)
        (deliver plain 3 1 (answered 500 broken) waiting_page)
deliver_comm_example =
    deliver_comm plain 1 2 3 4 0 0 0 0 3 200 500 nothing broken
      (part_request (codes "/admin/api/usage?")) (part_request (codes "/admin/api/events?"))
      waiting_page waiting_batch refl refl refl (omega arith) (omega arith) refl refl

-- The list of the devices is waited for.
abbrev asking : Pending
asking = record {
  request = record {
    method = get;
    path = codes "/admin/api/devices";
    content_type = none;
    body = none;
  };
  callback = got_devices;
}

abbrev asking_page : Page
asking_page = record initial { pending = asking ∷ [] }

deliver_refused_example :
    IsRefusal 401
      (refusal_text 401 nothing)
      asking_page.view
      asking_page.toast
      (deliver plain 0 0 (answered 401 nothing) asking_page)
    × ((deliver plain 0 0 (answered 401 nothing) asking_page).pending
        ≡ remove_at 0 asking_page.pending)
    × IsSameElsewhere asking_page (deliver plain 0 0 (answered 401 nothing) asking_page)
deliver_refused_example = deliver_refused plain 0 0 401 nothing asking_page asking refl tt refl

modal-resume_example :
    (resume plain 0
      (device_enrolled (codes "PC 4"))
      (settle (answered 201 (token (codes "0a1f"))))
      initial).modal
    ≡ modal_after
        (device_enrolled (codes "PC 4"))
        (settle (answered 201 (token (codes "0a1f"))))
        initial.modal
modal-resume_example =
    modal-resume plain 0 (device_enrolled (codes "PC 4"))
      (settle (answered 201 (token (codes "0a1f")))) initial

abbrev some_buckets : List Bucket
some_buckets =
    record { key = codes "MES"; seconds = 90 } ∷ record { key = codes "Web"; seconds = 30 } ∷ []

shown-render_bar_example :
    (config : Config) × (config.kind ≡ bar)
    × (config.set_labels ≡ (codes "category" ++ codes " dwell") ∷ [])
    × (shown category (render_bar true category (codes "category") some_buckets no_charts).0
        ≡ (if true && not (is_empty some_buckets) then some config else none))
    × (config.labels ≡ map (λ b. b.key) some_buckets)
    × (config.data_sets ≡ map (λ b. b.seconds) some_buckets ∷ [])
    × ((i : ℕ) → get_elem? config.colors i ≡ color_of_bar i (get_elem? some_buckets i))
    × (config.options ≡ bar_options)
    × ((d : Canvas)
        → category ≢ d
        → shown d (render_bar true category (codes "category") some_buckets no_charts).0
          ≡ shown d no_charts)
shown-render_bar_example =
    shown-render_bar true category (codes "category") some_buckets no_charts no_charts-NoLeak

-- A rename form that is open.
abbrev renaming_page : Page
renaming_page = record initial {
  renames = record { device = hostile; input = codes "PC 5"; done = false } ∷ [];
}
