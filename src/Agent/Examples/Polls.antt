-- ===== src/Agent/Examples/Polls.antt =====
-- Polls of a PC and the counter of its idle time.
use screwlogger.Base.{
  ℕ, ◌-◌, ◌*◌, ◌^◌, ◌≡◌, refl, Bool, true, false, some, List, [], ◌∷◌, map, arith, codes, text_eq,
}
use screwlogger.Server.Store.{Sent}
use screwlogger.Server.Query.{Heartbeat, active_ratio, rng}
use screwlogger.Agent.Categorize.{CategoryRule, categorize}
use screwlogger.Agent.Tick.{idle_ticks}
use screwlogger.Agent.Heartbeat.{new_builder, default_keep_alive, second, observe, unix}
use screwlogger.Agent.Heartbeat.Dwell.{Poll, heartbeats, row, polled, IsSteady}
use screwlogger.Agent.Heartbeat.Ratio.{active_ratio-polled}

abbrev poll : ℕ → Bool → Poll
poll at active = record { at = at * second; app = codes "x.exe"; active = active }

abbrev first : Poll
first = poll 100 true

abbrev polls : List Poll
polls = poll 110 true ∷ poll 118 true ∷ poll 130 false ∷ []

-- The second poll is no heartbeat; the third one keeps the first alive.
beats :
    map (λ (h : Sent). h.ts) (heartbeats (new_builder default_keep_alive) (first ∷ polls))
    ≡ 100 ∷ 118 ∷ 130 ∷ []
unfolding heartbeats observe unix text_eq
beats = refl

abbrev table : List Heartbeat
table =
    map (row (codes "a") (λ app. codes "MES"))
      (heartbeats (new_builder default_keep_alive) (first ∷ polls))

in_window : rng (codes "a") 90 140 table ≡ table
unfolding rng heartbeats observe unix text_eq
in_window = refl

steady : IsSteady first.at polls 140
unfolding unix
steady = (
  omega arith,
  omega arith,
  (omega arith, omega arith, (omega arith, omega arith, (omega arith, omega arith))),
)

active_ratio-polled_example :
    ((active_ratio (codes "a") 90 140 table).active_seconds ≡ polled true (first ∷ polls) 140)
    × ((active_ratio (codes "a") 90 140 table).idle_seconds ≡ polled false (first ∷ polls) 140)
active_ratio-polled_example =
    active_ratio-polled (codes "a") (λ app. codes "MES") 90 140 table first polls steady in_window

observed_active : polled true (first ∷ polls) 140 ≡ 30
unfolding polled unix
observed_active = refl

observed_idle : polled false (first ∷ polls) 140 ≡ 10
unfolding polled unix
observed_idle = refl

-- The counter has wrapped between the input and the reading.
wrapped : idle_ticks 5 (2 ^ 32 - 3) ≡ 8
unfolding idle_ticks
wrapped = refl

abbrev rules : List CategoryRule
rules =
    record { pattern = codes "x*"; category = codes "Other" }
    ∷ record { pattern = codes "X.EXE"; category = codes "MES" }
    ∷ []

-- The exact name wins over the pattern before it; a stand-in for the matching accepts any name.
categories :
    map
      (λ app. categorize (λ pattern app. some true) app rules)
      (codes "x.Exe" ∷ codes "y.exe" ∷ [])
    ≡ codes "MES" ∷ codes "Other" ∷ []
unfolding categorize text_eq
categories = refl
