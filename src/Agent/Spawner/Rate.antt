-- ===== src/Agent/Spawner/Rate.antt =====
-- How often `Spawner` in internal/agent/spawn_windows.go launches a watcher.
use screwlogger.Base.{
  ℕ, ◌+◌, ◌-◌, ◌*◌, ◌≤◌, ◌≡◌, refl, ap, ◌∙◌, ◌⊎◌, inl, inr, Bool, true, false, some, arith,
}
use mathlib.Core.Path.{subst}
use screwlogger.Agent.Pipe.{Pipe}
use screwlogger.Agent.Spawner.{Spawner, Seen, Reconciled, reconcile}
use screwlogger.Agent.Spawner.Ladder.{Same, wait_of, rung_after, Effect, reconcile-HasEffect}

abbrev pub counted : Bool → ℕ → ℕ
counted true n = n + 1
counted false n = n

-- A series of reconciliations in the order of time, none of which finds a watcher attached to the pipe,
-- with the time of the last one and the number of launches. The pipe may be any each time.
pub data Tries (first : ℕ) (s : Spawner) : ℕ → ℕ → Spawner → Type 0 where
  no_tries : Tries first s first 0 s
  one_more :
      (t n : ℕ) (u : Spawner) (seen : Seen) (p : Pipe) (r : Reconciled)
      → Tries first s t n u
      → t ≤ seen.now
      → reconcile seen p u ≡ some r
      → r.pipe.is_connected ≡ false
      → Tries first s seen.now (counted r.launched n) r.spawner

-- What holds on each rung.
record OnRung (first t n : ℕ) (u : Spawner) : Type 0 where
  later : first ≤ t
  rung :
      ((u.ladder_idx ≡ 0) × (n ≡ 0))
      ⊎ ((u.ladder_idx ≡ 1) × (30 * n + first ≤ u.next_attempt + 29) × (u.next_attempt ≤ t + 1))
      ⊎ ((u.ladder_idx ≡ 2) × (30 * n + first ≤ u.next_attempt + 54) × (u.next_attempt ≤ t + 30))

rung_le : (first t n : ℕ) (u : Spawner) → OnRung first t n u → u.ladder_idx ≤ 2
rung_le first t n u o = elim o.rung [
  | inl (e, z) ↦ omega (arith, e)
  | inr x ↦ elim x [ inl (e, a, b) ↦ omega (arith, e) | inr (e, a, b) ↦ omega (arith, e) ]
]

counted_false : (b : Bool) (n : ℕ) → b ≡ false → counted b n ≡ n
counted_false true n e = absurd (ground (arith, e))
counted_false false n e = refl

-- A launch is counted only if it was due.
counted_due :
    (b : Bool) (n next now : ℕ)
    → (b ≡ true → next ≤ now)
    → (counted b n ≡ n) ⊎ ((counted b n ≡ n + 1) × (next ≤ now))
counted_due true n next now due = inr (refl, due refl)
counted_due false n next now due = inl refl

climbed :
    (first t n now c : ℕ) (u v : Spawner)
    → OnRung first t n u
    → t ≤ now
    → v.next_attempt ≡ now + wait_of u.ladder_idx
    → v.ladder_idx ≡ rung_after u.ladder_idx
    → ((c ≡ n) ⊎ ((c ≡ n + 1) × (u.next_attempt ≤ now)))
    → OnRung first now c v
climbed first t n now c u v o le next idx due = record {
  later = omega (arith, o.later, le);
  rung = elim o.rung [
    | inl (e, z) ↦
        let w = next ∙ ap (λ i. now + wait_of i) e in
        let i = idx ∙ ap rung_after e in
        inr (inl (ground (arith, i), ground (arith, w, z, due, le, o.later), ground (arith, w)))
    | inr x ↦ elim x [
      | inl (e, a, b) ↦
          let w = next ∙ ap (λ i. now + wait_of i) e in
          let i = idx ∙ ap rung_after e in
          inr (inr (ground (arith, i), ground (arith, w, a, b, due, le), ground (arith, w)))
      | inr (e, a, b) ↦
          let w = next ∙ ap (λ i. now + wait_of i) e in
          let i = idx ∙ ap rung_after e in
          inr (inr (ground (arith, i), ground (arith, w, a, b, due, le), ground (arith, w)))
    ]
  ];
}

stayed :
    (first t n now c : ℕ) (u v : Spawner)
    → OnRung first t n u
    → t ≤ now
    → Same u v
    → c ≡ n
    → OnRung first now c v
stayed first t n now c u v o le same e = record {
  later = omega (arith, o.later, le);
  rung = ground (arith, o.rung, same.next, same.idx, e, le);
}

Effect-OnRung :
    (first t n now : ℕ) (u : Spawner) (r : Reconciled)
    → OnRung first t n u
    → t ≤ now
    → r.pipe.is_connected ≡ false
    → Effect now u r
    → OnRung first now (counted r.launched n) r.spawner
Effect-OnRung first t n now u r o le free (inl (same, b)) =
    stayed first t n now _ u r.spawner o le same (counted_false r.launched n b)
Effect-OnRung first t n now u r o le free (inr (inl (on, b))) = absurd (ground (arith, on, free))
Effect-OnRung first t n now u r o le free (inr (inr (next, idx, due))) =
    climbed first t n now _ u r.spawner o le next idx
      (counted_due r.launched n u.next_attempt now due)

Tries-OnRung :
    (first : ℕ) (s : Spawner)
    → s.ladder_idx ≡ 0
    → (t n : ℕ) (u : Spawner) → Tries first s t n u
    → OnRung first t n u
Tries-OnRung first s e t n u no_tries = record { later = omega arith; rung = inl (e, refl) }
Tries-OnRung first s e t n u (one_more v m w seen p r run le step free) =
    let o = Tries-OnRung first s e v m w run in
    let (q, f, effect) = reconcile-HasEffect seen p w (rung_le first v m w o) in
    let same : q ≡ r = cc (step, f) in
    Effect-OnRung first v m seen.now w r o le free (subst (Effect seen.now w) same effect)

-- The backoff of the spawner, from a state whose ladder is at its start, as it is at first and whenever
-- a watcher has been found attached: as long as no watcher is attached, whoever is logged on and
-- whatever fails, there is at most one launch for every thirty seconds, and fewer than three more. No
-- reconciliation leaves the ladder.
pub launches_bounded :
    (first t n : ℕ) (s u : Spawner)
    → s.ladder_idx ≡ 0
    → Tries first s t n u
    → (30 * n ≤ (t - first) + 84)
      × ((seen : Seen) (p : Pipe) → (r : Reconciled) × (reconcile seen p u ≡ some r))
launches_bounded first t n s u e run =
    let o = Tries-OnRung first s e t n u run in
    (
      elim o.rung [
        | inl (i, z) ↦ omega (arith, z)
        | inr x ↦ elim x [
          | inl (i, a, b) ↦ omega (arith, a, b, o.later)
          | inr (i, a, b) ↦ omega (arith, a, b, o.later)
        ]
      ],
      λ seen p. let (r, f, effect) = reconcile-HasEffect seen p u (rung_le first t n u o) in (r, f),
    )
