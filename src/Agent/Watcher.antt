-- ===== src/Agent/Watcher.antt =====
-- `RunWatcher` and `dialRetry` of internal/agent/watcher_windows.go. What the system answers is an
-- argument; times are in milliseconds.
use screwlogger.Base.{
  ℕ, ◌+◌, ◌-◌, ◌*◌, ◌≤◌, ◌<◌, ◌≡◌, refl, inl, inr, Bool, true, false, not, Option, none, some, List,
  [], ◌∷◌, ◌++◌, arith, ltb, ◌==◌, if◌then◌else◌, Bool-cases, Option-cases, length, All, Text, ℤ,
}
use screwlogger.Agent.Run.{is_active}
use screwlogger.Agent.Samples.{SampleJson, encode_sample}

-- `watcherDialInterval` and `watcherDialBudget`
abbrev pub dial_interval : ℕ
dial_interval = 500

abbrev pub dial_budget : ℕ
dial_budget = 15000

-- One call of `dial`: the time after it, and its error.
pub record Attempt : Type 0 where
  pub at : ℕ
  pub error : Option Text

pub data Dialled : Type 0 where
  dialled : Dialled
  unreachable : Text → Dialled
  cancelled_dial : Dialled

-- The loop of `dialRetry`, with the number of its calls of `dial`. The attempts end when the context is
-- cancelled.
unfoldable pub dial_retry : ℕ → List Attempt → ℕ × Dialled
dial_retry deadline [] = (0, cancelled_dial)
dial_retry deadline (a ∷ more) =
    let rest = dial_retry deadline more in
    elim a.error [
      | none ↦ (1, dialled)
      | some e ↦ if ltb deadline a.at then (1, unreachable e) else (rest.0 + 1, rest.1)
    ]

-- What a tick finds: the sessions of the process and of the console, the reading, and whether the
-- write fails.
pub record WatcherTick : Type 0 where
  pub own : Option ℕ
  pub console : ℕ
  pub app : Text
  pub idle : ℕ
  pub write_fails : Bool

abbrev pub is_visible : Option ℕ → ℕ → Bool
is_visible none console = false
is_visible (some own) console = own == console

-- A tick with a connection: what is written, and whether the connection stays.
abbrev pub watcher_tick : SampleJson → ℤ → WatcherTick → Text × Bool
watcher_tick j threshold w =
    if is_visible w.own w.console
    then (
      encode_sample j (record { app = w.app; active = is_active w.idle threshold }),
      not w.write_fails,
    )
    else ([], true)

-- A tick of the loop, at a time, with the attempts to dial that follow if there is no connection, and
-- whether the context is cancelled after them.
pub record LoopTick : Type 0 where
  pub start : ℕ
  pub attempts : List Attempt
  pub is_cancelled : Bool
  pub seen : WatcherTick

-- How `RunWatcher` returns: without an error if the context is cancelled.
pub data Exit : Type 0 where
  clean_exit : Exit
  failed_exit : Text → Exit

-- What is written, and the end, after `dialRetry`: the flag is whether the context is cancelled, the
-- last argument what follows a connection.
abbrev pub after_dial : Bool → Dialled → Text × Exit → Text × Exit
after_dial cancelled dialled next = next
after_dial cancelled (unreachable e) next = ([], if cancelled then clean_exit else failed_exit e)
after_dial cancelled cancelled_dial next = ([], clean_exit)

-- The loop of `RunWatcher`, with whether there is a connection; the ticks end when the context is
-- cancelled.
unfoldable pub watcher_loop : SampleJson → ℤ → Bool → List LoopTick → Text × Exit
unfolding dial_retry
watcher_loop j threshold connected [] = ([], clean_exit)
watcher_loop j threshold connected (k ∷ ticks) =
    let here = watcher_tick j threshold k.seen in
    let rest = watcher_loop j threshold here.1 ticks in
    let next : Text × Exit = (here.0 ++ rest.0, rest.1) in
    let tried = (dial_retry (k.start + dial_budget) k.attempts).1 in
    if connected then next else after_dial k.is_cancelled tried next

-- `RunWatcher`, with what it finds for the first connection.
unfoldable pub run_watcher : SampleJson → ℤ → ℕ → List Attempt → Bool → List LoopTick → Text × Exit
unfolding watcher_loop dial_retry
run_watcher j threshold start attempts cancelled ticks =
    after_dial cancelled (dial_retry (start + dial_budget) attempts).1
      (watcher_loop j threshold true ticks)

abbrev IsHidden : LoopTick → Type 0
IsHidden k = is_visible k.seen.own k.seen.console ≡ false

after_dial_silent :
    (b : Bool) (d : Dialled) (next : Text × Exit) → next.0 ≡ [] → (after_dial b d next).0 ≡ []
after_dial_silent b dialled next e = e
after_dial_silent b (unreachable m) next e = refl
after_dial_silent b cancelled_dial next e = refl

-- A watcher whose session is not that of the console writes nothing.
watcher_loop_silent :
    (j : SampleJson) (threshold : ℤ) (connected : Bool) (ticks : List LoopTick)
    → All IsHidden ticks
    → (watcher_loop j threshold connected ticks).0 ≡ []
unfolding watcher_loop
watcher_loop_silent j threshold connected [] h = refl
watcher_loop_silent j threshold connected (k ∷ ticks) (e, h) =
    let here = watcher_tick j threshold k.seen in
    let rest = watcher_loop j threshold here.1 ticks in
    let tried = (dial_retry (k.start + dial_budget) k.attempts).1 in
    let quiet : here.0 ++ rest.0 ≡ [] =
      ground (arith, e, watcher_loop_silent j threshold here.1 ticks h) in
    elim (Bool-cases connected) [
      | inl c ↦ rw c quiet
      | inr c ↦ rw c (after_dial_silent k.is_cancelled tried (here.0 ++ rest.0, rest.1) quiet)
    ]

run_watcher_silent :
    (j : SampleJson) (threshold : ℤ) (start : ℕ) (attempts : List Attempt) (cancelled : Bool)
    (ticks : List LoopTick)
    → All IsHidden ticks
    → (run_watcher j threshold start attempts cancelled ticks).0 ≡ []
unfolding run_watcher
run_watcher_silent j threshold start attempts cancelled ticks h =
    after_dial_silent cancelled (dial_retry (start + dial_budget) attempts).1
      (watcher_loop j threshold true ticks) (watcher_loop_silent j threshold true ticks h)

-- The attempts wait for each other.
abbrev pub IsSpaced : ℕ → List Attempt → Type 0
IsSpaced t [] = Unit
IsSpaced t (a ∷ more) = (t ≤ a.at) × IsSpaced (a.at + dial_interval) more

dial_retry_late :
    (deadline t : ℕ) (more : List Attempt)
    → IsSpaced t more
    → deadline < t
    → (dial_retry deadline more).0 ≤ 1
unfolding dial_retry
dial_retry_late deadline t [] h l = omega arith
dial_retry_late deadline t (a ∷ more) (k, h) l = elim (Option-cases a.error) [
  | inl e ↦ ground (arith, e)
  | inr (m, e) ↦ ground (arith, e, k, l)
]

dial_retry_bound :
    (deadline t : ℕ) (more : List Attempt)
    → IsSpaced t more
    → t ≤ deadline
    → dial_interval * (dial_retry deadline more).0 ≤ (deadline - t) + 2 * dial_interval
unfolding dial_retry
dial_retry_bound deadline t [] h l = omega arith
dial_retry_bound deadline t (a ∷ more) (k, h) l = elim (Option-cases a.error) [
  | inl e ↦ ground (arith, e)
  | inr (m, e) ↦ elim (Bool-cases (ltb deadline a.at)) [
    | inl f ↦ ground (arith, e, f)
    | inr f ↦ elim (Bool-cases (ltb deadline (a.at + dial_interval))) [
      | inl g ↦
          let few = dial_retry_late deadline (a.at + dial_interval) more h (ground (arith, g)) in
          ground (arith, e, f, g, k, few)
      | inr g ↦
          let few = dial_retry_bound deadline (a.at + dial_interval) more h (ground (arith, g)) in
          ground (arith, e, f, g, k, few)
    ]
  ]
]

-- Only a cancelled context leaves no attempt that ends the loop.
dial_retry_cancelled :
    (deadline : ℕ) (more : List Attempt)
    → (dial_retry deadline more).1 ≡ cancelled_dial
    → (dial_retry deadline more).0 ≡ length more
unfolding dial_retry
dial_retry_cancelled deadline [] h = refl
dial_retry_cancelled deadline (a ∷ more) h = elim (Option-cases a.error) [
  | inl e ↦ absurd (ground (arith, e, h))
  | inr (m, e) ↦ elim (Bool-cases (ltb deadline a.at)) [
    | inl f ↦ absurd (ground (arith, e, f, h))
    | inr f ↦ ground (arith, e, f, h, dial_retry_cancelled deadline more)
  ]
]

-- `dialRetry` ends: its calls of `dial`, of which each begins half a second or more after the one before
-- it has returned, are at most 32, however long each of them takes. Unless the context is cancelled, it
-- ends with a connection or an error.
pub dial_retry_ends :
    (start : ℕ) (more : List Attempt)
    → IsSpaced start more
    → ((dial_retry (start + dial_budget) more).0 ≤ 32)
      × ((dial_retry (start + dial_budget) more).1 ≡ cancelled_dial
          → (dial_retry (start + dial_budget) more).0 ≡ length more)
dial_retry_ends start more h = (
  omega (arith, dial_retry_bound (start + dial_budget) start more h (omega arith)),
  dial_retry_cancelled (start + dial_budget) more,
)
