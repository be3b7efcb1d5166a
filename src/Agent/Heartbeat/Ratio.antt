-- ===== src/Agent/Heartbeat/Ratio.antt =====
-- The order of the heartbeats of internal/agent/heartbeat.go, and what the server counts in all.
use screwlogger.Base.{
  ℕ, ◌+◌, ◌≤◌, ◌≡◌, refl, sym, ap, ◌∙◌, inl, inr, Bool, true, false, List, [], ◌∷◌, map, arith,
  Bool-cases, Text,
}
use mathlib.Core.Path.{subst}
use screwlogger.Server.Query.{
  Heartbeat, dwell_of, dwell, seconds_in, order_by_ts, insert_row, rng, active_ratio,
}
use screwlogger.Agent.Heartbeat.{new_builder, default_keep_alive, due, unix, emitted, observe}
use screwlogger.Agent.Heartbeat.Dwell.{
  Poll, heartbeats, row, polled, IsSteady, unix_step, beating, heartbeats_due, heartbeats_quiet,
  quiet_lem, counted_lem,
}

-- Rows in the order of time stay as they are.
abbrev Starts : ℕ → List Heartbeat → Type 0
Starts t [] = Unit
Starts t (r ∷ rs) = t ≤ r.ts

abbrev Ascending : List Heartbeat → Type 0
Ascending [] = Unit
Ascending (r ∷ rs) = Starts r.ts rs × Ascending rs

insert_row-first : (r : Heartbeat) (rs : List Heartbeat) → Starts r.ts rs → insert_row r rs ≡ r ∷ rs
unfolding insert_row
insert_row-first r [] h = refl
insert_row-first r (x ∷ rs) h = ground arith

order_by_ts-Ascending : (rs : List Heartbeat) → Ascending rs → order_by_ts rs ≡ rs
unfolding order_by_ts
order_by_ts-Ascending [] h = refl
order_by_ts-Ascending (r ∷ rs) (h, a) =
    ap (insert_row r) (order_by_ts-Ascending rs a) ∙ insert_row-first r rs h

abbrev Follows : ℕ → List Heartbeat → Type 0
Follows e rs = Starts (unix e) rs × Ascending rs

heartbeats-Follows :
    (device : Text) (cat : Text → Text) (e p : ℕ) (app : Text) (active : Bool) (xs : List Poll)
    (to : ℕ)
    → e ≤ p
    → p ≤ e + default_keep_alive
    → IsSteady p xs to
    → Follows e (map (row device cat) (heartbeats (beating e app active) xs))
heartbeats-Follows device cat e p app active [] to h k s = unfold heartbeats in (tt, tt)
heartbeats-Follows device cat e p app active (x ∷ xs) to h k (l, u, s) =
    let (m, n) = unix_step e p h k in
    let (q, r) = unix_step p x.at l u in
    elim (Bool-cases (due x.at x.app x.active (beating e app active))) [
      | inl d ↦
          subst (λ hs. Follows e (map (row device cat) hs))
            (sym (heartbeats_due e app active x xs d))
            (
              omega arith,
              heartbeats-Follows device cat x.at x.at x.app x.active xs to (omega arith)
                  (omega arith) s,
            )
      | inr d ↦
          subst (λ hs. Follows e (map (row device cat) hs))
            (sym (heartbeats_quiet e app active x xs d))
            (heartbeats-Follows device cat e x.at app active xs to (omega arith)
              (quiet_lem e app active x d).0 s)
    ]

heartbeats_first :
    (x : Poll) (xs : List Poll)
    → heartbeats (new_builder default_keep_alive) (x ∷ xs)
      ≡ emitted x.at x.app x.active ∷ heartbeats (beating x.at x.app x.active) xs
unfolding heartbeats observe due
heartbeats_first x xs = refl

-- An agent that polls at least every fifteen seconds loses nothing by its rule for heartbeats: if the
-- rows of its device in a window are the heartbeats of its polls, the server counts as active exactly
-- the seconds from each poll that found activity to the next poll, or to the end of the window for
-- the last one, and as idle those of the other polls.
pub active_ratio-polled :
    (device : Text) (cat : Text → Text) (from to : ℕ) (table : List Heartbeat) (x : Poll)
    (xs : List Poll)
    → IsSteady x.at xs to
    → rng device from to table
      ≡ map (row device cat) (heartbeats (new_builder default_keep_alive) (x ∷ xs))
    → ((active_ratio device from to table).active_seconds ≡ polled true (x ∷ xs) to)
      × ((active_ratio device from to table).idle_seconds ≡ polled false (x ∷ xs) to)
unfolding active_ratio dwell polled
active_ratio-polled device cat from to table x xs s e =
    let hs = map (row device cat) (heartbeats (beating x.at x.app x.active) xs) in
    let rows : order_by_ts (rng device from to table)
        ≡ row device cat (emitted x.at x.app x.active) ∷ hs =
      ap order_by_ts (e ∙ ap (map (row device cat)) (heartbeats_first x xs))
      ∙ order_by_ts-Ascending (row device cat (emitted x.at x.app x.active) ∷ hs) (
          heartbeats-Follows device cat x.at x.at x.app x.active xs to (omega arith) (omega arith)
            s) in
    let lem = λ (b : Bool).
      ap (λ rs. seconds_in b (dwell_of rs to)) rows
      ∙ counted_lem device cat b x.at x.at x.app x.active xs to (omega arith) (omega arith) s in
    (lem true, lem false)
