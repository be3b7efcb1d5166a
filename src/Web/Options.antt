-- ===== src/Web/Options.antt =====
-- The `options` of the three kinds of charts in internal/server/web/app.js: the axes, the legends and
-- the callbacks that print a tick of an axis and a tooltip. Values of data points are whole seconds; a
-- tick may be any number.
use screwlogger.Base.{
  ℕ, ◌+◌, Bool, true, false, Option, none, some, List, [], ◌∷◌, ◌++◌, ◌==◌, if◌then◌else◌, Text,
  codes, concat, ℤ, pos, negsuc,
}
use screwlogger.Web.Format.{Number, fmt_duration}

-- What Chart.js passes to the callback of a tooltip: `c.label`, `c.dataset.label` and the parsed value.
pub record TooltipItem : Type 0 where
  pub label : Text
  pub set_label : Text
  pub value : ℕ

pub record Tooltip : Type 0 where
  pub print : TooltipItem → Text
  pub footer : Option (List TooltipItem → Text)

-- `ticks` of the horizontal axis.
pub record Ticks : Type 0 where
  pub auto_skip : Option Bool
  pub max_rotation : ℕ
  pub min_rotation : Option ℕ
  pub max_ticks_limit : Option ℕ

-- `scales`
pub record Scales : Type 0 where
  pub x_ticks : Ticks
  pub begin_at_zero : Bool
  pub y_title : Text
  pub y_tick : Number → Text

pub data Legend : Type 0 where
  no_legend at_bottom : Legend

-- `plugin_tooltip` is `options.plugins.tooltip`, and `outer_tooltip` is `options.tooltip`.
pub record Options : Type 0 where
  pub responsive : Bool
  pub maintain_aspect_ratio : Bool
  pub cutout : Option Text
  pub legend : Legend
  pub scales : Option Scales
  pub plugin_tooltip : Option Tooltip
  pub outer_tooltip : Option Tooltip

abbrev pub whole : ℕ → Number
whole n = record { num = pos n; den = 1 }

abbrev pub is_zero : ℤ → Bool
is_zero (pos n) = n == 0
is_zero (negsuc n) = false

-- `function (v) { return v === 0 ? "0" : fmtDuration(v); }`
unfoldable pub tick_label : Number → Text
tick_label v = if is_zero v.num then codes "0" else fmt_duration (some v)

-- `options` of `renderBar`
abbrev pub bar_options : Options
bar_options = record {
  responsive = true;
  maintain_aspect_ratio = false;
  cutout = none;
  legend = no_legend;
  scales = some (record {
    x_ticks = record {
      auto_skip = some true;
      max_rotation = 45;
      min_rotation = some 0;
      max_ticks_limit = none;
    };
    begin_at_zero = true;
    y_title = codes "dwell time";
    y_tick = tick_label;
  });
  plugin_tooltip = none;
  outer_tooltip =
      some
        (record { print = λ c. codes " " ++ fmt_duration (some (whole c.value)); footer = none });
}

-- `options` of `renderRatio`
abbrev pub ratio_options : Options
ratio_options = record {
  responsive = true;
  maintain_aspect_ratio = false;
  cutout = some (codes "62%");
  legend = at_bottom;
  scales = none;
  plugin_tooltip = some (record {
    print =
        λ c. concat (codes " " ∷ c.label ∷ codes ": " ∷ fmt_duration (some (whole c.value)) ∷ []);
    footer = none;
  });
  outer_tooltip = none;
}

-- The loop of the footer of `renderHourly`.
unfoldable pub total_value : List TooltipItem → ℕ
total_value [] = 0
total_value (c ∷ cs) = c.value + total_value cs

-- `options` of `renderHourly`
abbrev pub hourly_options : Options
hourly_options = record {
  responsive = true;
  maintain_aspect_ratio = false;
  cutout = none;
  legend = at_bottom;
  scales = some (record {
    x_ticks = record {
      auto_skip = none;
      max_rotation = 0;
      min_rotation = none;
      max_ticks_limit = some 12;
    };
    begin_at_zero = true;
    y_title = codes "dwell / hour";
    y_tick = tick_label;
  });
  plugin_tooltip = none;
  outer_tooltip = some (record {
    print = λ c.
        concat (codes " " ∷ c.set_label ∷ codes ": " ∷ fmt_duration (some (whole c.value)) ∷ []);
    footer = some (λ cs. codes "Total: " ++ fmt_duration (some (whole (total_value cs))));
  });
}
