-- ===== src/Web/Charts/Render.antt =====
-- What the operator sees after a chart has been rendered.
use screwlogger.Base.{
  ℕ, zero, suc, ◌+◌, ◌%◌, ◌<◌, ◌≡◌, refl, ap, ◌∙◌, ◌≢◌, inl, inr, Bool, true, false, not, ◌&&◌,
  Option, none, some, List, [], ◌∷◌, ◌++◌, map, arith, ◌==◌, if◌then◌else◌, Option-cases, length,
  get_elem?, is_empty, Text, codes,
}
use screwlogger.Web.Wire.{Bucket}
use screwlogger.Web.Options.{bar_options}
use screwlogger.Web.Charts.{
  text_or, color_for, palette, Canvas, canvas_eq, Chart, Charts, Config, remove, destroy_chart,
  prepare_box, new_chart, render, render_bar, colors_from, bar,
}
use screwlogger.Web.Charts.Registry.{
  canvas_eq_iff, NoLeak, prepare_box-NoLeak, destroy_chart-NoLeak,
}

-- The configuration of the live chart of that number.
unfoldable pub config_of : ℕ → List Chart → Option Config
config_of id [] = none
config_of id (x ∷ xs) = if x.id == id then some x.config else config_of id xs

-- What is drawn on a canvas: the configuration of its registered chart.
unfoldable pub shown : Canvas → Charts → Option Config
shown c s = elim (s.charts c) [ none ↦ none | some id ↦ config_of id s.live ]

config_of-remove :
    (id j : ℕ) (xs : List Chart) → id ≢ j → config_of j (remove id xs) ≡ config_of j xs
unfolding config_of remove
config_of-remove id j [] n = refl
config_of-remove id j (x ∷ xs) n = ground (arith, config_of-remove id j xs)

shown-destroy_chart :
    (c d : Canvas) (s : Charts)
    → NoLeak s
    → shown d (destroy_chart c s) ≡ (if canvas_eq c d then none else shown d s)
unfolding shown destroy_chart
shown-destroy_chart c d s h = elim (Option-cases (s.charts c)) [
  | inl e ↦ rw (e, destroy_chart) (ground (arith, canvas_eq_iff c d))
  | inr (id, e) ↦
      rw (e, destroy_chart)
        (elim (Option-cases (s.charts d)) [
          | inl f ↦ ground (arith, canvas_eq_iff c d)
          | inr (j, f) ↦ ground (
            arith,
            canvas_eq_iff c d,
            config_of-remove id j s.live,
            (h c).alive id e,
            (h d).alive j f,
          )
        ])
]

shown-new_chart :
    (c d : Canvas) (config : Config) (s : Charts)
    → NoLeak s
    → shown d (new_chart c config s) ≡ (if canvas_eq c d then some config else shown d s)
unfolding shown new_chart config_of
shown-new_chart c d config s h = elim (Option-cases (s.charts d)) [
  | inl f ↦ ground (arith, canvas_eq_iff c d)
  | inr (j, f) ↦ ground (arith, canvas_eq_iff c d, (h d).used j f)
]

shown-prepare_box : (c d : Canvas) (b : Bool) (s : Charts) → shown d (prepare_box c b s) ≡ shown d s
unfolding shown prepare_box
shown-prepare_box c d b s = refl

-- Rendering on a canvas draws the configuration if the library is loaded and there is data, and
-- leaves nothing drawn there otherwise; what is drawn on the other canvases stays.
pub shown-render :
    (loaded : Bool) (c d : Canvas) (empty : Bool) (config : Config) (s : Charts)
    → NoLeak s
    → shown d (render loaded c empty config s).0
      ≡ (if canvas_eq c d then if loaded && not empty then some config else none else shown d s)
unfolding render
shown-render false c d empty config s h = shown-destroy_chart c d s h ∙ ground arith
shown-render true c d true config s h =
    shown-prepare_box c d true (destroy_chart c s) ∙ shown-destroy_chart c d s h
shown-render true c d false config s h =
    let t = prepare_box c false (destroy_chart c s) in
    shown-new_chart c d config t (prepare_box-NoLeak c false _ (destroy_chart-NoLeak c s h))
    ∙ ground (arith, shown-prepare_box c d false (destroy_chart c s), shown-destroy_chart c d s h)

-- The colour of a bar: the palette again and again.
abbrev pub color_of_bar : ℕ → Option Bucket → Option Text
color_of_bar i none = none
color_of_bar i (some bucket) = get_elem? palette (i % 10)

some-text_or :
    (n : ℕ) (xs : List Text) → n < length xs → some (text_or (get_elem? xs n)) ≡ get_elem? xs n
some-text_or n [] h = absurd (omega (arith, h))
some-text_or zero (x ∷ xs) h = refl
some-text_or (suc n) (x ∷ xs) h = some-text_or n xs (omega (arith, h))

palette-get_elem? : (i : ℕ) → some (color_for i) ≡ get_elem? palette (i % 10)
unfolding color_for
palette-get_elem? i = some-text_or (i % 10) palette (omega arith)

get_elem?-colors_from :
    (i k : ℕ) (bs : List Bucket)
    → get_elem? (colors_from i bs) k ≡ color_of_bar (i + k) (get_elem? bs k)
unfolding colors_from color_for
get_elem?-colors_from i k [] = refl
get_elem?-colors_from i zero (b ∷ bs) = ground (arith, palette-get_elem? i)
get_elem?-colors_from i (suc k) (b ∷ bs) =
    get_elem?-colors_from (i + 1) k bs ∙ ap (λ n. color_of_bar n (get_elem? bs k)) (omega arith)

-- A chart is drawn exactly if the library is loaded and there is a bucket. It is a bar chart with one
-- set, "category dwell" for the title "category", that has a label and a value for each bucket, in the
-- order of the answer, and the ten colours of the palette in turn; the other canvases keep theirs.
pub shown-render_bar :
    (loaded : Bool) (c : Canvas) (title : Text) (buckets : List Bucket) (s : Charts)
    → NoLeak s
    → (config : Config) × (config.kind ≡ bar)
      × (config.set_labels ≡ (title ++ codes " dwell") ∷ [])
      × (shown c (render_bar loaded c title buckets s).0
          ≡ (if loaded && not (is_empty buckets) then some config else none))
      × (config.labels ≡ map (λ b. b.key) buckets)
      × (config.data_sets ≡ map (λ b. b.seconds) buckets ∷ [])
      × ((i : ℕ) → get_elem? config.colors i ≡ color_of_bar i (get_elem? buckets i))
      × (config.options ≡ bar_options)
      × ((d : Canvas) → c ≢ d → shown d (render_bar loaded c title buckets s).0 ≡ shown d s)
unfolding render_bar
shown-render_bar loaded c title buckets s h = (
  config,
  refl,
  refl,
  shown-render loaded c c (is_empty buckets) config s h ∙ ground (arith, canvas_eq_iff c c),
  refl,
  refl,
  λ i.
      get_elem?-colors_from 0 i buckets
      ∙ ap (λ n. color_of_bar n (get_elem? buckets i)) (omega arith),
  refl,
  λ d n. shown-render loaded c d (is_empty buckets) config s h ∙ ground (arith, canvas_eq_iff c d),
)
  where
    config : Config
    config = record {
      kind = bar;
      labels = map (λ b. b.key) buckets;
      set_labels = (title ++ codes " dwell") ∷ [];
      data_sets = map (λ b. b.seconds) buckets ∷ [];
      colors = colors_from 0 buckets;
      options = bar_options;
    }
