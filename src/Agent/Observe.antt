-- ===== src/Agent/Observe.antt =====
-- `Agent.Observe` of internal/agent/agent.go: from an observation to the buffer.
use screwlogger.Base.{
  ℕ, ◌≤◌, ◌≡◌, refl, sym, Bool, Option, none, some, List, [], ◌∷◌, ◌++◌, length, Text,
}
use mathlib.Core.Path.{subst}
use screwlogger.Server.Store.{Sent}
use screwlogger.Agent.Heartbeat.{Builder, observe}
use screwlogger.Agent.Buffer.{Json, Buffer, append, all}
use screwlogger.Agent.Buffer.Lines.{IsJson, Fits}
use screwlogger.Agent.Buffer.Queue.{Represents, kept, append-Represents}
use screwlogger.Agent.Categorize.{CategoryRule, categorize}

-- The fields of `Agent` that it reads and changes.
pub record Agent : Type 0 where
  pub builder : Builder
  pub rules : List CategoryRule
  pub buffer : Buffer

-- The buffer after an append, which is logged if it fails.
abbrev pub or_logged : Buffer → Option Buffer → Buffer
or_logged b none = b
or_logged b (some c) = c

module _ (j : Json) (path_match : Text → Text → Option Bool) where
  -- The heartbeat with its identifier and its category.
  abbrev pub stamped : Text → Text → List CategoryRule → Sent → Sent
  stamped uuid app rs h = record h { id = uuid; category = categorize path_match app rs }

  abbrev pub emit : Text → Text → Option Sent → Agent → Agent
  emit uuid app none a = a
  emit uuid app (some h) a = record a {
    buffer = or_logged a.buffer (append j (stamped uuid app a.rules h) a.buffer);
  }

  -- `Observe`, at a time and with the identifier that is drawn.
  unfoldable pub observe_agent : Text → ℕ → Text → Bool → Agent → Agent
  observe_agent uuid now app active a =
      let r = observe now app active a.builder in emit uuid app r.0 (record a { builder = r.1 })

  -- The queue afterwards.
  abbrev pub queue_after :
      Text → Text → Option Sent → List CategoryRule → Buffer → List Sent → List Sent
  queue_after uuid app none rs b q = q
  queue_after uuid app (some h) rs b q = kept b q ++ stamped uuid app rs h ∷ []

  emit-Represents :
      (law : IsJson j) (uuid app : Text) (o : Option Sent) (a : Agent) (q : List Sent)
      → ((h : Sent) → o ≡ some h → Fits j (stamped uuid app a.rules h))
      → length q ≤ all
      → Represents j a.buffer q
      → Represents j (emit uuid app o a).buffer (queue_after uuid app o a.rules a.buffer q)
  emit-Represents law uuid app none a q f few r = r
  emit-Represents law uuid app (some h) a q f few r =
      let (c, e, s) =
        append-Represents j law (stamped uuid app a.rules h) a.buffer q (f h refl) few r in
      subst
        (λ o.
          Represents j (or_logged a.buffer o) (kept a.buffer q ++ stamped uuid app a.rules h ∷ []))
        (sym e) s

  -- An observation that is due adds its heartbeat, with the category of the application, at the end of
  -- the queue that the buffer stands for, after the buffer has made room if it is over its limit; any
  -- other observation leaves the queue as it is. No append fails.
  pub observe_agent-Represents :
      (law : IsJson j) (uuid : Text) (now : ℕ) (app : Text) (active : Bool) (a : Agent)
      (q : List Sent)
      → ((h : Sent)
          → (observe now app active a.builder).0 ≡ some h
          → Fits j (stamped uuid app a.rules h))
      → length q ≤ all
      → Represents j a.buffer q
      → Represents j
          (observe_agent uuid now app active a).buffer
          (queue_after uuid app (observe now app active a.builder).0 a.rules a.buffer q)
  unfolding observe_agent
  observe_agent-Represents law uuid now app active a q f few r =
      emit-Represents law uuid app (observe now app active a.builder).0
        (record a { builder = (observe now app active a.builder).1 }) q f few r
