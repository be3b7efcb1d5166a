-- ===== src/Agent/Heartbeat.antt =====
-- `HeartbeatBuilder` of internal/agent/heartbeat.go: a heartbeat for every change of the foreground
-- application or of the activity, and one every fifteen seconds in between. The clock is an argument,
-- in nanoseconds since 1970, and does not run backwards.
pub mod Dwell
pub mod Ratio
use screwlogger.Base.{
  ℕ, ◌-◌, ◌*◌, ◌/◌, Bool, true, false, not, ◌||◌, Option, none, some, [], leb, if◌then◌else◌, Text,
  text_eq,
}
use screwlogger.Server.Store.{Sent}

-- `time.Second` and `DefaultKeepAlive`
abbrev pub second : ℕ
second = 1_000_000_000

abbrev pub default_keep_alive : ℕ
default_keep_alive = 15 * second

pub record Builder : Type 0 where
  pub keep_alive : ℕ
  pub started : Bool
  pub cur_app : Text
  pub cur_active : Bool
  pub last_emit : ℕ

-- `NewHeartbeatBuilder`
abbrev pub new_builder : ℕ → Builder
new_builder keep_alive = record {
  keep_alive = keep_alive;
  started = false;
  cur_app = [];
  cur_active = false;
  last_emit = 0;
}

abbrev pub same : Bool → Bool → Bool
same true b = b
same false b = not b

-- `due`
unfoldable pub due : ℕ → Text → Bool → Builder → Bool
due now app active b =
    not b.started
    || not (text_eq app b.cur_app)
    || not (same active b.cur_active)
    || leb b.keep_alive (now - b.last_emit)

-- `now.Unix()`
unfoldable pub unix : ℕ → ℕ
unix now = now / second

-- The heartbeat of an observation; `Agent.Observe` fills in the identifier and the category.
abbrev pub emitted : ℕ → Text → Bool → Sent
emitted now app active = record {
  id = [];
  ts = unix now;
  app = app;
  category = [];
  active = active;
}

abbrev pub restarted : ℕ → Text → Bool → Builder → Builder
restarted now app active b = record b {
  started = true;
  cur_app = app;
  cur_active = active;
  last_emit = now;
}

-- `Observe`
unfoldable pub observe : ℕ → Text → Bool → Builder → Option Sent × Builder
unfolding due
observe now app active b =
    if due now app active b
    then (some (emitted now app active), restarted now app active b)
    else (none, b)
