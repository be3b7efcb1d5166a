-- ===== src/Agent/Run.antt =====
-- `Run`, `RunSamples`, `pollOnce` and `shipLoop` of internal/agent/agent.go: the two goroutines of the
-- agent, the mutex between them, the cancelled context and the closing of the buffer, as a step
-- relation in which the goroutines take turns in any order. Times are left to the environment: a tick
-- and a timer may come whenever the goroutine waits for them.
pub mod Invariant
pub mod Ends
use screwlogger.Base.{
  ℕ, ◌*◌, ◌≡◌, Bool, true, false, Option, none, some, List, [], ltb, Text, ℤ, pos, negsuc,
}
use screwlogger.Server.Store.{Sent}
use screwlogger.Agent.Heartbeat.{observe, new_builder, default_keep_alive}
use screwlogger.Agent.Config.{Config}
use screwlogger.Agent.Categorize.{CategoryRule}
use screwlogger.Agent.Buffer.{Json, Buffer, append, open_buffer}
use screwlogger.Agent.Shipper.{FlushAnswer, flush, next_interval}
use screwlogger.Agent.Observe.{Agent, or_logged, stamped}

abbrev pub or_no_rules : Option (List CategoryRule) → List CategoryRule
or_no_rules none = []
or_no_rules (some rules) = rules

-- `New`, with what `LoadRules` gives and the content of the file of the buffer, which can be opened.
abbrev pub new_agent : Config → Option (List CategoryRule) → Text → Agent
new_agent c rules content = record {
  builder = new_builder default_keep_alive;
  rules = or_no_rules rules;
  buffer = open_buffer c.max_buffer_bytes content;
}

-- The goroutine of `Run`: it waits for a tick, or for a sample in `RunSamples`, wants the mutex for a
-- heartbeat, appends it, waits for the other goroutine to end, wants the mutex, closes the buffer, or
-- has returned.
pub data Poller : Type 0 where
  polling : Poller
  wants_append appending : Sent → Poller
  joining wants_close closing returned : Poller

-- The goroutine of `shipLoop`: it waits for its timer, wants the mutex, uploads, sets its timer again
-- after a success or a failure, or has ended.
pub data Uploader : Type 0 where
  sleeping wants_flush flushing : Uploader
  resetting : Bool → Uploader
  ended : Uploader

pub data Owner : Type 0 where
  nobody poller_owns uploader_owns : Owner

pub record Threads : Type 0 where
  pub poller : Poller
  pub uploader : Uploader
  pub mutex : Owner
  pub cancelled : Bool
  pub is_open : Bool
  pub agent : Agent
  pub failures : ℕ

-- The beginning of `Run`
abbrev pub started_with : Agent → Threads
started_with a = record {
  poller = polling;
  uploader = sleeping;
  mutex = nobody;
  cancelled = false;
  is_open = true;
  agent = a;
  failures = 0;
}

-- `a.idle.IdleSeconds() < float64(a.cfg.IdleThresholdSeconds)`, for an idle time in milliseconds
abbrev pub is_active : ℕ → ℤ → Bool
is_active idle (pos threshold) = ltb idle (1000 * threshold)
is_active idle (negsuc threshold) = false

-- Whether an upload ended with an error.
abbrev pub is_failed : Option ℕ → Bool
is_failed none = true
is_failed (some n) = false

module _ (j : Json) (path_match : Text → Text → Option Bool) where
  -- `Observe` up to the mutex, for a heartbeat that is due or not.
  abbrev pub observed : Text → Text → Option Sent → Agent → Poller
  observed uuid app none a = polling
  observed uuid app (some h) a = wants_append (stamped j path_match uuid app a.rules h)

  -- One step. The flag marks those that need something from outside: the cancellation, a tick or a
  -- sample, a timer. All others can happen by themselves.
  pub data Step (s : Threads) : Bool → Threads → Type 0 where
    cancelling : Step s true (record s { cancelled = true })
    ticking :
        (uuid : Text) (now : ℕ) (app : Text) (active : Bool)
        → s.poller ≡ polling
        → Step s true (record s {
          poller = observed uuid app (observe now app active s.agent.builder).0 s.agent;
          agent = record s.agent { builder = (observe now app active s.agent.builder).1 };
        })
    locks_append :
        (h : Sent)
        → s.poller ≡ wants_append h
        → s.mutex ≡ nobody
        → Step s false (record s { poller = appending h; mutex = poller_owns })
    appends :
        (h : Sent)
        → s.poller ≡ appending h
        → Step s false (record s {
          poller = polling;
          mutex = nobody;
          agent = record s.agent { buffer = or_logged s.agent.buffer (append j h s.agent.buffer) };
        })
    stops : s.poller ≡ polling → s.cancelled ≡ true → Step s false (record s { poller = joining })
    joins :
        s.poller ≡ joining → s.uploader ≡ ended → Step s false (record s { poller = wants_close })
    locks_close :
        s.poller ≡ wants_close
        → s.mutex ≡ nobody
        → Step s false (record s { poller = closing; mutex = poller_owns })
    closes :
        s.poller ≡ closing
        → Step s false (record s { poller = returned; mutex = nobody; is_open = false })
    fires : s.uploader ≡ sleeping → Step s true (record s { uploader = wants_flush })
    locks_flush :
        s.uploader ≡ wants_flush
        → s.mutex ≡ nobody
        → Step s false (record s { uploader = flushing; mutex = uploader_owns })
    flushes :
        (answer : FlushAnswer)
        → s.uploader ≡ flushing
        → Step s false (record s {
          uploader = resetting (is_failed (flush j answer s.agent.buffer).1);
          mutex = nobody;
          agent = record s.agent { buffer = (flush j answer s.agent.buffer).0 };
        })
    resets :
        (failed : Bool)
        → s.uploader ≡ resetting failed
        → Step s false
            (record s { uploader = sleeping; failures = (next_interval failed s.failures).1 })
    leaves :
        s.uploader ≡ sleeping → s.cancelled ≡ true → Step s false (record s { uploader = ended })

  -- The states that come about.
  pub data Reached (a : Agent) : Threads → Type 0 where
    at_start : Reached a (started_with a)
    and_then : (s t : Threads) (b : Bool) → Reached a s → Step s b t → Reached a t
