-- ===== src/Delivery/Rounds.antt =====
-- Uploads from internal/agent/shipper.go that internal/server/ingest.go answers, one after another.
use screwlogger.Base.{
  ℕ, ◌-◌, ◌*◌, ◌≤◌, ◌<◌, ◌≡◌, refl, sym, ap, ◌∙◌, ◌⊎◌, inl, inr, true, Option, none, some, List, [],
  ◌∷◌, ◌++◌, arith, length, take, drop, length-drop, IsIn, All-mono, All, Text,
}
use mathlib.Core.Path.{subst}
use screwlogger.Server.Store.{ok, device_id_by_token, Sent, Store}
use screwlogger.Server.Ingest.{bearer, IngestBatch, ingest, status_of}
use screwlogger.Server.Ingest.Accepted.{IsEnrolled, ingest-ok}
use screwlogger.Agent.Buffer.{Json, all, unacked}
use screwlogger.Agent.Buffer.Lines.{IsJson}
use screwlogger.Agent.Buffer.Queue.{unacked-all}
use screwlogger.Agent.Buffer.Size.{length-le-file}
use screwlogger.Agent.Shipper.{batch_of, status, batch_limit, posted, flush_batch, flush}
use screwlogger.Agent.Shipper.Sending.{left, left_nil}
use screwlogger.Delivery.{max_body, received, Reply, World, batch_request, served, store_after, Run}
use screwlogger.Delivery.Stored.{IsStored}
use screwlogger.Delivery.Uploads.{IsAccounted, IsSafe, next, posted_batch, handled-IsSafe}
use screwlogger.Delivery.Safe.{Run-IsSafe}

-- The batch of each upload fits into the body that the server reads, for a queue whose first 500
-- heartbeats leave it every time.
abbrev pub BatchesFit : Json → List (ℕ × ℕ) → List Sent → Type 0
BatchesFit j [] q = Unit
BatchesFit j ((sent_at, now) ∷ times) q =
    (j.batch_size (batch_of sent_at (take batch_limit q)) ≤ max_body)
    × BatchesFit j times (drop batch_limit q)

module _ (j : Json) (hash_token : Text → Text) (token : Text) where
  -- One answered upload, `heard` as a function.
  abbrev pub upload_round : ℕ → ℕ → World → World
  upload_round sent_at now w = record w {
    buffer = (flush j (status (status_of (served j hash_token token sent_at now w).0)) w.buffer).0;
    store =
        store_after (flush_batch j sent_at w.buffer) w.store
          (served j hash_token token sent_at now w).1;
  }

  -- One for each pair of times, which are those of `DeviceSentAt` and of the clock of the server.
  abbrev pub rounds : List (ℕ × ℕ) → World → World
  rounds [] w = w
  rounds ((sent_at, now) ∷ times) w = rounds times (upload_round sent_at now w)

  module _ (id : Text) (law : IsJson j) (some_token : 0 < length token) where
    -- The first 500 heartbeats leave the queue, and the token stays good.
    abbrev Progress : ℕ → Store → List Sent → Option IngestBatch → Type 0
    Progress now s q batch =
        IsEnrolled hash_token token (next j hash_token token now s batch) id
        × (left (status (status_of (ingest hash_token now (batch_request j token batch) s).0)) q
            ≡ drop batch_limit q)

    posted-Progress :
        (sent_at now : ℕ) (s : Store) (q : List Sent)
        → IsEnrolled hash_token token s id
        → j.batch_size (batch_of sent_at (take batch_limit q)) ≤ max_body
        → Progress now s q (posted sent_at (some (take batch_limit q)))
    posted-Progress sent_at now s [] e fits = (
      e,
      left_nil j law (status (status_of (ingest hash_token now (batch_request j token none) s).0)),
    )
    posted-Progress sent_at now s (h ∷ q) e fits =
        let batch = batch_of sent_at (take batch_limit (h ∷ q)) in
        let whole : received j (some batch) ≡ some batch = ground (arith, fits) in
        let (n, t, i, f) = ingest-ok hash_token token id now batch s some_token refl e in
        let answer =
          ap
            (λ b.
              ingest hash_token now
                (record { is_post = true; authorization = bearer ++ token; body = b }) s)
            whole
          ∙ i in
        (
          subst (λ (r : Reply × Store). IsEnrolled hash_token token r.1 id) (sym answer) f,
          subst
              (λ (r : Reply × Store).
                left (status (status_of r.0)) (h ∷ q) ≡ drop batch_limit (h ∷ q))
              (sym answer) refl,
        )

    upload_round-IsSafe :
        (sent_at now : ℕ) (w : World) (q : List Sent)
        → IsSafe j w q
        → IsEnrolled hash_token token w.store id
        → j.batch_size (batch_of sent_at (take batch_limit q)) ≤ max_body
        → IsSafe j (upload_round sent_at now w) (drop batch_limit q)
          × IsEnrolled hash_token token (upload_round sent_at now w).store id
    upload_round-IsSafe sent_at now w q safe e fits =
        let (f, g) =
          subst (Progress now w.store q)
            (sym (posted_batch j hash_token token law sent_at w q safe))
            (posted-Progress sent_at now w.store q e fits) in
        let a = status (status_of (served j hash_token token sent_at now w).0) in
        (
          subst (IsSafe j (upload_round sent_at now w)) g
              (handled-IsSafe j hash_token token law sent_at now a w q (λ e. cc e) safe),
          f,
        )

    rounds-IsSafe :
        (times : List (ℕ × ℕ)) (w : World) (q : List Sent)
        → IsSafe j w q
        → IsEnrolled hash_token token w.store id
        → BatchesFit j times q
        → (p : List Sent) × IsSafe j (rounds times w) p
          × (length p ≡ length q - batch_limit * length times)
          × ((rounds times w).log ≡ w.log)
          × ((rounds times w).discarded ≡ w.discarded)
    rounds-IsSafe [] w q safe e fits = (q, safe, omega arith, refl, refl)
    rounds-IsSafe ((sent_at, now) ∷ times) w q safe e (fits, later) =
        let (next_safe, f) = upload_round-IsSafe sent_at now w q safe e fits in
        let (p, last_safe, n, same, drops) =
          rounds-IsSafe times (upload_round sent_at now w) (drop batch_limit q) next_safe f later in
        (p, last_safe, omega (arith, n, length-drop batch_limit q), same, drops)

-- The heartbeat has been thrown away, or the server has it.
abbrev pub IsDone : List Sent → Store → Sent → Type 0
IsDone discarded s h = IsIn h discarded ⊎ IsStored s h

All-IsDone :
    (discarded : List Sent) (s : Store) (log : List Sent)
    → All (IsAccounted discarded s []) log
    → All (IsDone discarded s) log
All-IsDone discarded s log h =
    All-mono (IsAccounted discarded s []) (IsDone discarded s) log
      (λ x k. elim k [ inl i ↦ inl i | inr o ↦ elim o [ inl i ↦ inr i | inr i ↦ absurd i ] ]) h

-- In every state that can come about, answered uploads deliver everything: if the token is that of a
-- device that is not revoked and the JSON text of each batch has at most 2^20 bytes, then after one
-- upload for every 500 heartbeats that wait, or more, none waits any more, and every heartbeat that was ever appended, but for those that an overflow or the
-- deletion of a device had thrown away before, is in the table of the server, by its identifier.
pub all_delivered :
    (j : Json) (hash_token : Text → Text) (token id : Text) (s : Store) (w : World) (q : List Sent)
    (times : List (ℕ × ℕ))
    → IsJson j
    → 0 < length token
    → Run j hash_token token s w
    → device_id_by_token hash_token token w.store ≡ ok id
    → unacked j all w.buffer ≡ some q
    → length q ≤ batch_limit * length times
    → BatchesFit j times q
    → (unacked j all (rounds j hash_token token times w).buffer ≡ some [])
      × All (IsDone w.discarded (rounds j hash_token token times w).store) w.log
all_delivered j hash_token token id s w q times law t r e u enough fits =
    let (p, safe) = Run-IsSafe j hash_token token law s w r in
    let same : p ≡ q = cc (
      u,
      unacked-all j law w.buffer p safe.represents
          (omega (arith, length-le-file j w.buffer p safe.represents, safe.small)),
    ) in
    let (o, after, n, log, drops) =
      rounds-IsSafe j hash_token token id law t times w p safe e
        (subst (BatchesFit j times) (sym same) fits) in
    let none_left : o ≡ [] = nothing_left o (omega (arith, n, ap length same, enough)) in
    let empty = subst (IsSafe j (rounds j hash_token token times w)) none_left after in
    (
      unacked-all j law (rounds j hash_token token times w).buffer [] empty.represents
          (omega arith),
      subst (λ discarded. All (IsDone discarded (rounds j hash_token token times w).store) w.log)
          drops
          (subst
            (All (
              IsDone (rounds j hash_token token times w).discarded
                (rounds j hash_token token times w).store))
            log
            (All-IsDone (rounds j hash_token token times w).discarded
              (rounds j hash_token token times w).store _ empty.nowhere_lost)),
    )
  where
    nothing_left : (xs : List Sent) → length xs ≡ 0 → xs ≡ []
    nothing_left [] h = refl
    nothing_left (x ∷ xs) h = ground (arith, h)
