-- ===== src/Web/Charts.antt =====
-- The chart registry of internal/server/web/app.js: `charts`, `destroyChart`, `ensureChart`,
-- `prepareBox`, `renderBar`, `renderRatio` and `renderHourly`. The Chart.js library is not read: it
-- enters by the charts that the page creates with it and destroys, and by whether it was loaded.
pub mod Registry
pub mod Render
use screwlogger.Base.{
  ℕ, ◌+◌, ◌%◌, Bool, true, false, not, Option, none, some, List, [], ◌∷◌, ◌++◌, map, ◌==◌,
  if◌then◌else◌, length, get_elem?, is_empty, Text, codes,
}
use screwlogger.Web.Wire.{Bucket, Ratio, Event}
use screwlogger.Web.Options.{Options, bar_options, ratio_options, hourly_options}
use screwlogger.Web.Timeline.{Series, hourly_series}

-- The four canvases, `chart-category` and so on, each in its box, `box-category` and so on.
pub data Canvas : Type 0 where
  category app ratio hourly : Canvas

abbrev pub canvas_eq : Canvas → Canvas → Bool
canvas_eq category category = true
canvas_eq app app = true
canvas_eq ratio ratio = true
canvas_eq hourly hourly = true
canvas_eq _ _ = false

-- What a box holds: nothing yet, the message that there is no data, or a canvas.
pub data Box : Type 0 where
  blank no_data canvas : Box

pub data Kind : Type 0 where
  bar doughnut line : Kind

-- A chart's configuration: the kind, the labels of the points, the labels, the values and the colours
-- of the data sets, and the options. The widths and the dashes of lines are left out.
pub record Config : Type 0 where
  pub kind : Kind
  pub labels : List Text
  pub set_labels : List Text
  pub data_sets : List (List ℕ)
  pub colors : List Text
  pub options : Options

-- A chart that has been created and not destroyed.
pub record Chart : Type 0 where
  pub id : ℕ
  pub place : Canvas
  pub config : Config

-- `charts` maps a canvas to its chart; `live` and `next` are the library's side of it.
pub record Charts : Type 0 where
  pub charts : Canvas → Option ℕ
  pub live : List Chart
  pub next : ℕ
  pub box : Canvas → Box

abbrev pub no_charts : Charts
no_charts = record { charts = λ c. none; live = []; next = 0; box = λ c. blank }

abbrev pub update {ℓ} : {A : Type ℓ} → (Canvas → A) → Canvas → A → Canvas → A
update f c a d = if canvas_eq c d then a else f d

-- `chart.destroy()`
unfoldable pub remove : ℕ → List Chart → List Chart
remove id [] = []
remove id (x ∷ xs) = if x.id == id then xs else x ∷ remove id xs

-- `destroyChart`
unfoldable pub destroy_chart : Canvas → Charts → Charts
destroy_chart c s = elim (s.charts c) [
  | none ↦ s
  | some id ↦ record s { live = remove id s.live; charts = update s.charts c none }
]

-- `prepareBox`; whether there is a canvas to draw on is the negation of `is_empty_box`.
unfoldable pub prepare_box : Canvas → Bool → Charts → Charts
prepare_box c is_empty_box s = record s {
  box = update s.box c (if is_empty_box then no_data else canvas);
}

-- `charts[canvasId] = new Chart(canvas, config)`
unfoldable pub new_chart : Canvas → Config → Charts → Charts
new_chart c config s = record s {
  charts = update s.charts c (some s.next);
  live = record { id = s.next; place = c; config = config } ∷ s.live;
  next = s.next + 1;
}

-- The common shape of the three render functions: destroy the old chart, stop if the library is not
-- loaded, prepare the box, and draw unless there is no data. The flag says that `ensureChart` failed,
-- which shows a message.
unfoldable pub render : Bool → Canvas → Bool → Config → Charts → Charts × Bool
unfolding destroy_chart prepare_box new_chart
render loaded c is_empty_box config s =
    let destroyed = destroy_chart c s in
    if not loaded
    then (destroyed, true)
    else let prepared = prepare_box c is_empty_box destroyed in
      (if is_empty_box then prepared else new_chart c config prepared, false)

-- `PALETTE`
abbrev pub palette : List Text
palette =
    codes "#2563eb"
    ∷ codes "#7c3aed"
    ∷ codes "#0d9488"
    ∷ codes "#d97706"
    ∷ codes "#dc2626"
    ∷ codes "#0891b2"
    ∷ codes "#65a30d"
    ∷ codes "#db2777"
    ∷ codes "#4338ca"
    ∷ codes "#059669"
    ∷ []

abbrev pub text_or : Option Text → Text
text_or none = codes "undefined"
text_or (some t) = t

-- `colorFor`
unfoldable pub color_for : ℕ → Text
color_for i = text_or (get_elem? palette (i % length palette))

-- `map(function (_, i) { return colorFor(i); })`, from an index on.
unfoldable pub colors_from : ℕ → List Bucket → List Text
colors_from i [] = []
colors_from i (b ∷ bs) = color_for i ∷ colors_from (i + 1) bs

-- `renderBar`; an answer with no buckets gives the empty list.
unfoldable pub render_bar : Bool → Canvas → Text → List Bucket → Charts → Charts × Bool
unfolding render colors_from
render_bar loaded c title buckets s = render loaded c (is_empty buckets) config s
  where
    config : Config
    config = record {
      kind = bar;
      labels = map (λ b. b.key) buckets;
      set_labels = (title ++ codes " dwell") ∷ [];
      data_sets = map (λ b. b.seconds) buckets ∷ [];
      colors = colors_from 0 buckets;
      options = bar_options;
    }

abbrev total_of : Option Ratio → ℕ
total_of none = 0
total_of (some r) = r.total_seconds

abbrev parts_of : Option Ratio → List ℕ
parts_of none = []
parts_of (some r) = r.active_seconds ∷ r.idle_seconds ∷ []

-- `renderRatio`; `none` for an answer that holds no ratio. It draws only if there is one.
unfoldable pub render_ratio : Bool → Option Ratio → Charts → Charts × Bool
unfolding render
render_ratio loaded r s = render loaded ratio (total_of r == 0) config s
  where
    config : Config
    config = record {
      kind = doughnut;
      labels = codes "Active" ∷ codes "Idle" ∷ [];
      set_labels = [];
      data_sets = parts_of r ∷ [];
      colors = codes "#16a34a" ∷ codes "#d97706" ∷ [];
      options = ratio_options;
    }

-- `renderHourly`; the first argument prints an hour, as `hourLabel`.
unfoldable pub render_hourly : (ℕ → Text) → Bool → List Event → ℕ → Charts → Charts × Bool
unfolding render
render_hourly hour_label loaded events to s = render loaded hourly (is_empty events) config s
  where
    series : Series
    series = hourly_series events to

    config : Config
    config = record {
      kind = line;
      labels = map hour_label series.hours;
      set_labels = codes "Active" ∷ codes "Idle" ∷ [];
      data_sets = series.active ∷ series.idle ∷ [];
      colors = codes "#16a34a" ∷ codes "#d97706" ∷ [];
      options = hourly_options;
    }
