-- ===== src/Agent/Spawner/Ladder.antt =====
-- The backoff of `Spawner` in internal/agent/spawn_windows.go: what one reconciliation
-- does to it.
use screwlogger.Base.{
  ℕ, zero, suc, ◌+◌, ◌≤◌, ◌≡◌, refl, ap, ◌∙◌, ◌⊎◌, inl, inr, Bool, true, false, ◌||◌, Option, none,
  some, arith, ltb, ◌==◌, if◌then◌else◌, Bool-cases, Text,
}
use screwlogger.Agent.Pipe.{Pipe, ensure_sddl}
use screwlogger.Agent.Spawner.{
  Spawner, Seen, User, no_token, no_user, user, consume_ladder, without_session, with_session,
  with_watcher, launch_logged, log_changed, Reconciled, finished, reconcile_user, launch_if_due,
  reconcile_found, reconcile, no_console_session,
}

-- Two spawners have the same backoff.
pub record Same (s t : Spawner) : Type 0 where
  pub next : t.next_attempt ≡ s.next_attempt
  pub idx : t.ladder_idx ≡ s.ladder_idx

Same-log_changed : (line : Text) (s : Spawner) → Same s (log_changed line s)
Same-log_changed line s = record { next = ground arith; idx = ground arith }

Same-without_session : (s : Spawner) → Same s (without_session s)
Same-without_session s = record { next = ground arith; idx = ground arith }

Same-with_session : (sid : ℕ) (s : Spawner) → Same s (with_session sid s)
Same-with_session sid s = record { next = ground arith; idx = ground arith }

Same-with_watcher : (sid_str : Text) (b : Bool) (s : Spawner) → Same s (with_watcher sid_str b s)
Same-with_watcher sid_str b s = record { next = ground arith; idx = ground arith }

Same-launch_logged :
    (sid : ℕ) (sid_str : Text) (o : Option Text) (s : Spawner)
    → Same s (launch_logged sid sid_str o s)
Same-launch_logged sid sid_str none s = record { next = refl; idx = refl }
Same-launch_logged sid sid_str (some e) s = record { next = ground arith; idx = ground arith }

Same-trans : (s t u : Spawner) → Same s t → Same t u → Same s u
Same-trans s t u a b = record { next = b.next ∙ a.next; idx = b.idx ∙ a.idx }

-- The wait of a rung, and the rung after it.
abbrev pub wait_of : ℕ → ℕ
wait_of zero = 1
wait_of (suc zero) = 5
wait_of (suc (suc n)) = 30

abbrev pub rung_after : ℕ → ℕ
rung_after n = if ltb n 2 then n + 1 else n

consume_ladder_lem :
    (now : ℕ) (s : Spawner)
    → s.ladder_idx ≤ 2
    → (t : Spawner) × (consume_ladder now s ≡ some t)
      × (t.next_attempt ≡ now + wait_of s.ladder_idx)
      × (t.ladder_idx ≡ rung_after s.ladder_idx)
unfolding consume_ladder
consume_ladder_lem now s h = go s.ladder_idx refl
  where
    go :
        (n : ℕ)
        → s.ladder_idx ≡ n
        → (t : Spawner) × (consume_ladder now s ≡ some t)
          × (t.next_attempt ≡ now + wait_of s.ladder_idx)
          × (t.ladder_idx ≡ rung_after s.ladder_idx)
    go zero e = rw (e, consume_ladder) (_, refl, refl, ground (arith, e))
    go (suc zero) e = rw (e, consume_ladder) (_, refl, refl, ground (arith, e))
    go (suc (suc zero)) e = rw (e, consume_ladder) (_, refl, refl, ground (arith, e))
    go (suc (suc (suc n))) e = absurd (omega (arith, h, e))

-- What a reconciliation does to the backoff: nothing; or it starts it again, for a watcher that is
-- attached; or it takes the next rung, after a launch only if it was due.
abbrev pub Effect : ℕ → Spawner → Reconciled → Type 0
Effect now s r =
    (Same s r.spawner × (r.launched ≡ false))
    ⊎ ((r.pipe.is_connected ≡ true) × (r.launched ≡ false))
    ⊎ ((r.spawner.next_attempt ≡ now + wait_of s.ladder_idx)
        × (r.spawner.ladder_idx ≡ rung_after s.ladder_idx)
        × ((r.launched ≡ true → s.next_attempt ≤ now)))

abbrev pub HasEffect : ℕ → Spawner → Option Reconciled → Type 0
HasEffect now s o = (r : Reconciled) × (o ≡ some r) × Effect now s r

consumed :
    (b : Bool) (p : Pipe) (now : ℕ) (s t : Spawner)
    → Same s t
    → s.ladder_idx ≤ 2
    → (b ≡ true → s.next_attempt ≤ now)
    → HasEffect now s (finished b p (consume_ladder now t))
consumed b p now s t same h due =
    let (u, e, next, idx) = consume_ladder_lem now t (omega (arith, h, same.idx)) in
    (
      record { launched = b; pipe = p; spawner = u },
      rw e refl,
      inr (inr (next ∙ ap (λ i. now + wait_of i) same.idx, idx ∙ ap rung_after same.idx, due)),
    )

launch_if_due-HasEffect :
    (seen : Seen) (sid_str : Text) (p : Pipe) (s t : Spawner)
    → Same s t
    → s.ladder_idx ≤ 2
    → HasEffect seen.now s (launch_if_due seen sid_str p t)
unfolding launch_if_due
launch_if_due-HasEffect seen sid_str p s t same h =
    let u = launch_logged seen.console sid_str seen.launch_error t in
    elim (Bool-cases p.is_connected) [
      | inl e ↦ (
        record {
          launched = false;
          pipe = p;
          spawner = record t { ladder_idx = 0; next_attempt = 0 };
        },
        ground (arith, e),
        inr (inl (e, refl)),
      )
      | inr e ↦ elim (Bool-cases (ltb seen.now t.next_attempt)) [
        | inl f ↦ (
          record { launched = false; pipe = p; spawner = t },
          ground (arith, e, f),
          inl (same, refl),
        )
        | inr f ↦
            let (r, g, effect) =
              consumed true p seen.now s u
                (Same-trans s t u same
                  (Same-launch_logged seen.console sid_str seen.launch_error t))
                h (λ k. ground (arith, f, same.next)) in
            let launches : launch_if_due seen sid_str p t
                ≡ finished true p (consume_ladder seen.now u) =
              ground (arith, e, f) in
            (r, launches ∙ g, effect)
      ]
    ]

reconcile_found-HasEffect :
    (seen : Seen) (found : User) (p : Pipe) (s t : Spawner)
    → Same s t
    → s.ladder_idx ≤ 2
    → HasEffect seen.now s (reconcile_found seen found p t)
unfolding reconcile_found reconcile_user
reconcile_found-HasEffect seen (no_token e) p s t same h =
    consumed false p seen.now s _ (Same-trans s t _ same (Same-log_changed _ t)) h
      (λ k. absurd (ground (arith, k)))
reconcile_found-HasEffect seen (no_user e) p s t same h =
    consumed false p seen.now s _ (Same-trans s t _ same (Same-log_changed _ t)) h
      (λ k. absurd (ground (arith, k)))
reconcile_found-HasEffect seen (user sid_str) p s t same h =
    let q = ensure_sddl sid_str p in
    launch_if_due-HasEffect seen sid_str q s _
      (Same-trans s t _ same (Same-with_watcher sid_str q.is_connected t)) h

pub reconcile-HasEffect :
    (seen : Seen) (p : Pipe) (s : Spawner)
    → s.ladder_idx ≤ 2
    → HasEffect seen.now s (reconcile seen p s)
unfolding reconcile
reconcile-HasEffect seen p s h =
    elim (Bool-cases (seen.console == no_console_session || seen.console == 0)) [
      | inl e ↦ (
        record { launched = false; pipe = p; spawner = without_session s },
        rw (reconcile, e) refl,
        inl (Same-without_session s, refl),
      )
      | inr e ↦
          let (r, g, effect) =
            reconcile_found-HasEffect seen seen.found p s (with_session seen.console s)
              (Same-with_session seen.console s) h in
          (r, rw (reconcile, e) g, effect)
    ]
