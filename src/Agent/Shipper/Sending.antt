-- ===== src/Agent/Shipper/Sending.antt =====
-- What an upload of internal/agent/shipper.go does to the buffer as a queue.
use screwlogger.Base.{
  ℕ, ◌≤◌, ◌≡◌, refl, sym, inl, inr, Bool, true, false, some, List, [], ◌∷◌, arith, ◌==◌,
  if◌then◌else◌, Bool-cases, length, take, drop, drop-length-take,
}
use mathlib.Core.Path.{subst}
use screwlogger.Server.Store.{Sent}
use screwlogger.Agent.Buffer.{Json, Buffer, all, ack}
use screwlogger.Agent.Buffer.Lines.{IsJson}
use screwlogger.Agent.Buffer.Queue.{Represents, unacked-Represents, ack-Represents}
use screwlogger.Agent.Buffer.Size.{length-drop-le, ack-file}
use screwlogger.Agent.Shipper.{
  FlushAnswer, unanswered, status, batch_limit, posted, flush_batch, after_answer, after_ack, flush,
}

-- The heartbeats that stay in the queue: only the status 200 removes some.
abbrev pub left : FlushAnswer → List Sent → List Sent
left unanswered q = q
left (status s) q = if s == 200 then drop batch_limit q else q

module _ (j : Json) (law : IsJson j) where
  pub flush_batch_lem :
      (sent_at : ℕ) (b : Buffer) (q : List Sent)
      → Represents j b q
      → flush_batch j sent_at b ≡ posted sent_at (some (take batch_limit q))
  unfolding flush_batch
  flush_batch_lem sent_at b q r = rw (unacked-Represents j law batch_limit b q r)

  -- The buffer holds a queue, in a file that is not larger than before.
  abbrev pub Holds : ℕ → Buffer → List Sent → Type 0
  Holds n b q = Represents j b q × (length b.file ≤ n)

  after_ack-buffer : (n : ℕ) (r : Buffer × Bool) → (after_ack n r).0 ≡ r.0
  after_ack-buffer n (b, true) = refl
  after_ack-buffer n (b, false) = refl

  answered-Holds :
      (a : FlushAnswer) (b : Buffer) (q : List Sent)
      → length b.file ≤ all
      → Represents j b q
      → Holds (length b.file) (after_answer j a (take batch_limit q) b).0 (left a q)
  answered-Holds unanswered b q small r = (r, omega arith)
  answered-Holds (status s) b q small r =
      let n = length (take batch_limit q) in
      elim (Bool-cases (s == 200)) [
        | inl e ↦ rw e (
            subst (λ c. Holds (length b.file) c (drop batch_limit q))
              (sym (after_ack-buffer n (ack j n b)))
              (
                subst (Represents j (ack j n b).0) (drop-length-take batch_limit q)
                    (ack-Represents j law n b q (length-drop-le j n b q r small) r).1,
                ack-file j law n b q small r,
              ))
        | inr e ↦ rw e (r, omega arith)
      ]

  pub left_nil : (a : FlushAnswer) → left a [] ≡ []
  left_nil unanswered = refl
  left_nil (status s) = ground arith

  pub flush-Holds :
      (a : FlushAnswer) (b : Buffer) (q : List Sent)
      → length b.file ≤ all
      → Represents j b q
      → Holds (length b.file) (flush j a b).0 (left a q)
  unfolding flush
  flush-Holds a b [] small r =
      rw (flush, unacked-Represents j law batch_limit b [] r)
        (subst (Holds (length b.file) b) (sym (left_nil a)) (r, omega arith))
  flush-Holds a b (h ∷ q) small r =
      rw (flush, unacked-Represents j law batch_limit b (h ∷ q) r)
        (answered-Holds a b (h ∷ q) small r)
