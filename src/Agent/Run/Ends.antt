-- ===== src/Agent/Run/Ends.antt =====
-- A cancelled agent of internal/agent/agent.go comes to its end.
use screwlogger.Base.{
  ℕ, ◌+◌, ◌*◌, ◌≤◌, ◌≡◌, refl, ◌⊎◌, inl, inr, Bool, true, false, Option, none, some, arith,
  Bool-cases, Text,
}
use screwlogger.Server.Store.{Sent}
use screwlogger.Agent.Buffer.{Json}
use screwlogger.Agent.Heartbeat.{observe}
use screwlogger.Agent.Shipper.{unanswered}
use screwlogger.Agent.Observe.{Agent}
use screwlogger.Agent.Run.{
  Poller, polling, wants_append, appending, joining, wants_close, closing, returned, Uploader,
  sleeping, wants_flush, flushing, resetting, ended, nobody, Threads, observed, Step, cancelling,
  ticking, locks_append, appends, stops, joins, locks_close, closes, fires, locks_flush, flushes,
  resets, leaves, Reached, and_then,
}
use screwlogger.Agent.Run.Invariant.{
  poller_inside, uploader_inside, IsExclusive, Reached-IsExclusive,
}

-- How many steps a goroutine has left, if nothing comes from outside.
abbrev poller_effort : Poller → ℕ
poller_effort (wants_append h) = 6
poller_effort (appending h) = 5
poller_effort polling = 4
poller_effort joining = 3
poller_effort wants_close = 2
poller_effort closing = 1
poller_effort returned = 0

abbrev uploader_effort : Uploader → ℕ
uploader_effort wants_flush = 4
uploader_effort flushing = 3
uploader_effort (resetting failed) = 2
uploader_effort sleeping = 1
uploader_effort ended = 0

abbrev effort : Threads → ℕ
effort s = poller_effort s.poller + uploader_effort s.uploader

effort_bound : (s : Threads) → effort s ≤ 10
effort_bound s = ground arith

observed_effort :
    (j : Json) (path_match : Text → Text → Option Bool) (uuid app : Text) (o : Option Sent)
    (a : Agent)
    → poller_effort (observed j path_match uuid app o a) ≤ 6
observed_effort j path_match uuid app none a = omega arith
observed_effort j path_match uuid app (some h) a = omega arith

abbrev step_cost : Bool → ℕ
step_cost true = 0
step_cost false = 1

abbrev step_gain : Bool → ℕ
step_gain true = 3
step_gain false = 0

module _ (j : Json) (path_match : Text → Text → Option Bool) where
  -- A step of the agent costs effort; one from outside gives at most three steps more.
  effort-Step :
      (s t : Threads) (b : Bool)
      → Step j path_match s b t
      → effort t + step_cost b ≤ effort s + step_gain b
  effort-Step s t b cancelling = omega arith
  effort-Step s t b (ticking uuid now app active p) = ground (
    arith,
    p,
    observed_effort j path_match uuid app (observe now app active s.agent.builder).0 s.agent,
  )
  effort-Step s t b (locks_append h p m) = ground (arith, p)
  effort-Step s t b (appends h p) = ground (arith, p)
  effort-Step s t b (stops p c) = ground (arith, p)
  effort-Step s t b (joins p e) = ground (arith, p)
  effort-Step s t b (locks_close p m) = ground (arith, p)
  effort-Step s t b (closes p) = ground (arith, p)
  effort-Step s t b (fires u) = ground (arith, u)
  effort-Step s t b (locks_flush u m) = ground (arith, u)
  effort-Step s t b (flushes answer u) = ground (arith, u)
  effort-Step s t b (resets failed u) = ground (arith, u)
  effort-Step s t b (leaves u c) = ground (arith, u)

  -- A series of steps, with the number of those from outside and of the others.
  pub data Steps : ℕ → ℕ → Threads → Threads → Type 0 where
    no_steps : (s : Threads) → Steps 0 0 s s
    outside :
        (m n : ℕ) (s t u : Threads)
        → Steps m n s t
        → Step j path_match t true u
        → Steps (m + 1) n s u
    inside :
        (m n : ℕ) (s t u : Threads)
        → Steps m n s t
        → Step j path_match t false u
        → Steps m (n + 1) s u

  effort-Steps : (m n : ℕ) (s t : Threads) → Steps m n s t → effort t + n ≤ effort s + 3 * m
  effort-Steps m n s t (no_steps u) = omega arith
  effort-Steps m n s t (outside k l u v w steps step) =
      omega (arith, effort-Steps k l u v steps, effort-Step v w true step)
  effort-Steps m n s t (inside k l u v w steps step) =
      omega (arith, effort-Steps k l u v steps, effort-Step v w false step)

  abbrev CanGo : Threads → Type 0
  CanGo s = (t : Threads) × Step j path_match s false t

  -- The uploading goroutine can go on until it has ended, unless the other one owns the mutex.
  uploader_goes :
      (s : Threads) (u : Uploader)
      → s.uploader ≡ u
      → s.cancelled ≡ true
      → (s.mutex ≡ nobody) ⊎ (uploader_inside u ≡ true)
      → CanGo s ⊎ (u ≡ ended)
  uploader_goes s sleeping e c m = inl (_, leaves e c)
  uploader_goes s wants_flush e c (inl m) = inl (_, locks_flush e m)
  uploader_goes s wants_flush e c (inr m) = cc m
  uploader_goes s flushing e c m = inl (_, flushes unanswered e)
  uploader_goes s (resetting failed) e c m = inl (_, resets failed e)
  uploader_goes s ended e c m = inr refl

  free_or_inside :
      (s : Threads)
      → IsExclusive s
      → poller_inside s.poller ≡ false
      → (s.mutex ≡ nobody) ⊎ (uploader_inside s.uploader ≡ true)
  free_or_inside s i out = elim (Bool-cases (uploader_inside s.uploader)) [
    | inl e ↦ inr e
    | inr e ↦ inl (ground (arith, i.owned, out, e))
  ]

  ended_outside : (s : Threads) → s.uploader ≡ ended → uploader_inside s.uploader ≡ false
  ended_outside s e = ground (arith, e)

  -- One goroutine can go on, or the agent has ended.
  poller_goes :
      (s : Threads) (p : Poller)
      → s.poller ≡ p
      → s.cancelled ≡ true
      → IsExclusive s
      → CanGo s ⊎ (p ≡ returned)
  poller_goes s polling e c i = inl (_, stops e c)
  poller_goes s (wants_append h) e c i = elim (free_or_inside s i (ground (arith, e))) [
    | inl m ↦ inl (_, locks_append h e m)
    | inr u ↦ elim (uploader_goes s s.uploader refl c (inr u)) [
      | inl go ↦ inl go
      | inr f ↦ absurd (ground (arith, u, ended_outside s f))
    ]
  ]
  poller_goes s (appending h) e c i = inl (_, appends h e)
  poller_goes s joining e c i =
      elim (uploader_goes s s.uploader refl c (free_or_inside s i (ground (arith, e)))) [
        | inl go ↦ inl go
        | inr f ↦ inl (_, joins e f)
      ]
  poller_goes s wants_close e c i = inl (_, locks_close e (ground (arith, e, i.owned, i.last)))
  poller_goes s closing e c i = inl (_, closes e)
  poller_goes s returned e c i = inr refl

  cancelled-Step :
      (s t : Threads) (b : Bool) → Step j path_match s b t → s.cancelled ≡ true → t.cancelled ≡ true
  cancelled-Step s t b cancelling h = refl
  cancelled-Step s t b (ticking uuid now app active p) h = h
  cancelled-Step s t b (locks_append x p m) h = h
  cancelled-Step s t b (appends x p) h = h
  cancelled-Step s t b (stops p c) h = h
  cancelled-Step s t b (joins p e) h = h
  cancelled-Step s t b (locks_close p m) h = h
  cancelled-Step s t b (closes p) h = h
  cancelled-Step s t b (fires u) h = h
  cancelled-Step s t b (locks_flush u m) h = h
  cancelled-Step s t b (flushes answer u) h = h
  cancelled-Step s t b (resets failed u) h = h
  cancelled-Step s t b (leaves u c) h = h

  -- What holds at both ends of a series of steps.
  Reached-Steps :
      (a : Agent) (m n : ℕ) (s t : Threads)
      → Steps m n s t
      → Reached j path_match a s
      → s.cancelled ≡ true
      → Reached j path_match a t × (t.cancelled ≡ true)
  Reached-Steps a m n s t (no_steps u) r c = (r, c)
  Reached-Steps a m n s t (outside k l u v w steps step) r c =
      let (q, d) = Reached-Steps a k l u v steps r c in
      (and_then v w true q step, cancelled-Step v w true step d)
  Reached-Steps a m n s t (inside k l u v w steps step) r c =
      let (q, d) = Reached-Steps a k l u v steps r c in
      (and_then v w false q step, cancelled-Step v w false step d)

ends_closed :
    (s : Threads) → IsExclusive s → s.poller ≡ returned → (s.uploader ≡ ended) × (s.is_open ≡ false)
ends_closed s i e = (ground (arith, e, i.last), ground (arith, e, i.file))

-- After the cancellation of its context the agent ends: from every state that can come about, the two
-- goroutines take at most ten steps, and three more for each tick, sample or timer that still comes in
-- between, and they never block each other. As long as `Run` has not returned some step of theirs is
-- possible, and when it has, the goroutine that uploads has ended and the buffer is closed.
pub run_ends :
    (j : Json) (path_match : Text → Text → Option Bool) (a : Agent) (m n : ℕ) (s t : Threads)
    → Reached j path_match a s
    → s.cancelled ≡ true
    → Steps j path_match m n s t
    → (n ≤ 10 + 3 * m)
      × (((u : Threads) × Step j path_match t false u)
          ⊎ ((t.poller ≡ returned) × (t.uploader ≡ ended) × (t.is_open ≡ false)))
run_ends j path_match a m n s t r c steps =
    let (q, d) = Reached-Steps j path_match a m n s t steps r c in
    let i = Reached-IsExclusive j path_match a t q in
    (
      omega (arith, effort-Steps j path_match m n s t steps, effort_bound s),
      elim (poller_goes j path_match t t.poller refl d i) [
        | inl go ↦ inl go
        | inr e ↦ let (f, g) = ends_closed t i e in inr (e, f, g)
      ],
    )
