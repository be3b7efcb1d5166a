-- ===== src/Web/Charts/Registry.antt =====
-- The registry of charts and the charts that are alive agree: none leaks.
use screwlogger.Base.{
  ℕ, ◌+◌, ◌<◌, ◌≡◌, refl, ◌≢◌, ◌↔◌, inl, inr, Bool, true, false, Option, none, some, List, [], ◌∷◌,
  arith, ◌==◌, if◌then◌else◌, Option-cases,
}
use screwlogger.Web.Charts.{
  Canvas, canvas_eq, Chart, Charts, no_charts, update, remove, destroy_chart, prepare_box,
  new_chart, render, Config,
}

pub canvas_eq_iff : (c d : Canvas) → (canvas_eq c d ≡ true) ↔ (c ≡ d)
canvas_eq_iff c d = ground arith

-- How many live charts stand on a canvas.
unfoldable pub count_on : Canvas → List Chart → ℕ
count_on c [] = 0
count_on c (x ∷ xs) = (if canvas_eq x.place c then 1 else 0) + count_on c xs

-- The canvas of the live chart of that number.
unfoldable pub place_of : ℕ → List Chart → Option Canvas
place_of id [] = none
place_of id (x ∷ xs) = if x.id == id then some x.place else place_of id xs

abbrev number_of : Option ℕ → ℕ
number_of none = 0
number_of (some id) = 1

-- What holds of each canvas: the charts alive on it are the registered one, if there is one, and
-- none otherwise, and the registered one is alive there.
pub record IsTracked (s : Charts) (c : Canvas) : Type 0 where
  pub counted : count_on c s.live ≡ number_of (s.charts c)
  pub alive : (id : ℕ) → s.charts c ≡ some id → place_of id s.live ≡ some c
  pub used : (id : ℕ) → s.charts c ≡ some id → id < s.next

abbrev pub NoLeak : Charts → Type 0
NoLeak s = (c : Canvas) → IsTracked s c

count_on-remove :
    (c d : Canvas) (id : ℕ) (xs : List Chart)
    → place_of id xs ≡ some c
    → count_on d xs ≡ count_on d (remove id xs) + (if canvas_eq c d then 1 else 0)
unfolding count_on place_of remove
count_on-remove c d id [] e = cc
count_on-remove c d id (x ∷ xs) e = ground (arith, count_on-remove c d id xs)

place_of-remove : (id j : ℕ) (xs : List Chart) → id ≢ j → place_of j (remove id xs) ≡ place_of j xs
unfolding place_of remove
place_of-remove id j [] n = refl
place_of-remove id j (x ∷ xs) n = ground (arith, place_of-remove id j xs)

pub no_charts-NoLeak : NoLeak no_charts
no_charts-NoLeak c = record {
  counted = unfold count_on in refl;
  alive = λ id e. cc;
  used = λ id e. cc;
}

destroy_some :
    (c : Canvas) (id : ℕ) (s : Charts)
    → s.charts c ≡ some id
    → NoLeak s
    → NoLeak (record s { live = remove id s.live; charts = update s.charts c none })
destroy_some c id s e h d = record {
  counted = ground (
    arith,
    count_on-remove c d id s.live (here.alive id e),
    there.counted,
    canvas_eq_iff c d,
    here.counted,
  );
  alive = λ j f.
      ground (arith, there.alive j, here.alive id, place_of-remove id j s.live, canvas_eq_iff c d);
  used = λ j f. ground (arith, there.used j);
}
  where
    here : IsTracked s c
    here = h c

    there : IsTracked s d
    there = h d

pub destroy_chart-NoLeak : (c : Canvas) (s : Charts) → NoLeak s → NoLeak (destroy_chart c s)
unfolding destroy_chart
destroy_chart-NoLeak c s h = elim (Option-cases (s.charts c)) [
  | inl e ↦ rw (e, destroy_chart) h
  | inr (id, e) ↦ rw (e, destroy_chart) (destroy_some c id s e h)
]

pub charts-destroy_chart : (c : Canvas) (s : Charts) → (destroy_chart c s).charts c ≡ none
unfolding destroy_chart
charts-destroy_chart c s = elim (Option-cases (s.charts c)) [
  | inl e ↦ rw (e, destroy_chart) e
  | inr (id, e) ↦ rw (e, destroy_chart) (ground (arith, canvas_eq_iff c c))
]

pub new_chart-NoLeak :
    (c : Canvas) (config : Config) (s : Charts)
    → s.charts c ≡ none
    → NoLeak s
    → NoLeak (new_chart c config s)
unfolding new_chart
new_chart-NoLeak c config s e h d = record {
  counted = unfold count_on in ground (arith, there.counted, canvas_eq_iff c d);
  alive = λ j f. unfold place_of in ground (arith, there.alive j, there.used j, canvas_eq_iff c d);
  used = λ j f. ground (arith, there.used j);
}
  where
    there : IsTracked s d
    there = h d

pub prepare_box-NoLeak :
    (c : Canvas) (b : Bool) (s : Charts) → NoLeak s → NoLeak (prepare_box c b s)
unfolding prepare_box
prepare_box-NoLeak c b s h d = record {
  counted = (h d).counted;
  alive = (h d).alive;
  used = (h d).used;
}

-- However a chart is rendered, no chart is left alive that the registry does not know.
pub render-NoLeak :
    (loaded : Bool) (c : Canvas) (empty : Bool) (config : Config) (s : Charts)
    → NoLeak s
    → NoLeak (render loaded c empty config s).0
unfolding render
render-NoLeak false c empty config s h = destroy_chart-NoLeak c s h
render-NoLeak true c true config s h =
    prepare_box-NoLeak c true (destroy_chart c s) (destroy_chart-NoLeak c s h)
render-NoLeak true c false config s h =
    new_chart-NoLeak c config (prepare_box c false (destroy_chart c s)) (charts-destroy_chart c s)
      (prepare_box-NoLeak c false (destroy_chart c s) (destroy_chart-NoLeak c s h))
