-- ===== src/Delivery/Uploads.antt =====
-- One upload from internal/agent/shipper.go to internal/server/ingest.go: where its heartbeats are
-- afterwards.
use screwlogger.Base.{
  ℕ, ◌≤◌, ◌≡◌, sym, ap, ◌⊎◌, inl, inr, Option, none, some, List, [], ◌∷◌, arith, ◌==◌, Bool-cases,
  ==_iff, length, take, IsIn, IsIn-take-drop, All-IsIn, All-mono, All, Text,
}
use mathlib.Core.Path.{subst}
use screwlogger.Server.Store.{Sent, Store}
use screwlogger.Server.Ingest.{IngestBatch, ingest, status_of}
use screwlogger.Agent.Buffer.{Json, all}
use screwlogger.Agent.Buffer.Lines.{IsJson}
use screwlogger.Agent.Buffer.Queue.{Represents}
use screwlogger.Agent.Shipper.{
  batch_of, flush_batch, FlushAnswer, unanswered, status, batch_limit, posted, flush,
}
use screwlogger.Agent.Shipper.Sending.{flush_batch_lem, left, flush-Holds}
use screwlogger.Delivery.{World, received, batch_request, served, store_after}
use screwlogger.Delivery.Stored.{IsStored, ingest-body, ingest-keeps, ingest-stores}

-- The server has the heartbeat, or the queue of the agent does.
abbrev pub IsSomewhere : Store → List Sent → Sent → Type 0
IsSomewhere s q h = IsStored s h ⊎ IsIn h q

-- Either that, or the agent has discarded it.
abbrev pub IsAccounted : List Sent → Store → List Sent → Sent → Type 0
IsAccounted discarded s q h = IsIn h discarded ⊎ IsSomewhere s q h

pub IsAccounted-mono :
    (discarded : List Sent) (s t : Store) (q p : List Sent) (h : Sent)
    → (IsSomewhere s q h → IsSomewhere t p h)
    → IsAccounted discarded s q h
    → IsAccounted discarded t p h
IsAccounted-mono discarded s t q p h f (inl i) = inl i
IsAccounted-mono discarded s t q p h f (inr k) = inr (f k)

moved :
    (a : FlushAnswer) (t : Store) (q : List Sent) (h : Sent)
    → (a ≡ status 200 → All (IsStored t) (take batch_limit q))
    → IsIn h q
    → IsSomewhere t (left a q) h
moved unanswered t q h stored k = inr k
moved (status s) t q h stored k = elim (Bool-cases (s == 200)) [
  | inl e ↦ rw e (elim (IsIn-take-drop h batch_limit q k) [
    | inl i ↦
        inl
          (All-IsIn (IsStored t) (take batch_limit q) h (stored (ap status ((==_iff s 200).0 e))) i)
    | inr i ↦ inr i
  ])
  | inr e ↦ rw e (inr k)
]

received-some :
    (j : Json) (batch found : IngestBatch) → received j (some batch) ≡ some found → found ≡ batch
received-some j batch found e = ground (arith, e)

module _ (j : Json) (hash_token : Text → Text) (token : Text) (now : ℕ) (s : Store) where
  abbrev pub next : Option IngestBatch → Store
  next batch = store_after batch s (ingest hash_token now (batch_request j token batch) s).1

  next-keeps : (batch : Option IngestBatch) (h : Sent) → IsStored s h → IsStored (next batch) h
  next-keeps none h k = k
  next-keeps (some batch) h k =
      ingest-keeps hash_token now (batch_request j token (some batch)) s h k

  next-stores :
      (sent_at : ℕ) (q : List Sent)
      → status_of
          (ingest hash_token now
            (batch_request j token (posted sent_at (some (take batch_limit q))))
            s).0
        ≡ 200
      → All (IsStored (next (posted sent_at (some (take batch_limit q))))) (take batch_limit q)
  next-stores sent_at [] e = tt
  next-stores sent_at (h ∷ q) e =
      let batch = posted sent_at (some (take batch_limit (h ∷ q))) in
      let (found, b) = ingest-body hash_token now (batch_request j token batch) s e in
      let same : found ≡ batch_of sent_at (take batch_limit (h ∷ q)) =
        received-some j (batch_of sent_at (take batch_limit (h ∷ q))) found b in
      subst (λ (x : IngestBatch). All (IsStored (next batch)) x.heartbeats) same
        (ingest-stores hash_token now (batch_request j token batch) s found b e)

-- What holds in every state: the buffer is a queue, and no heartbeat is missing.
pub record IsSafe (j : Json) (w : World) (queue : List Sent) : Type 0 where
  pub represents : Represents j w.buffer queue
  pub small : length w.buffer.file ≤ all
  pub nowhere_lost : All (IsAccounted w.discarded w.store queue) w.log

module _ (j : Json) (hash_token : Text → Text) (token : Text) (law : IsJson j) where
  -- An upload that ends with that answer, after which the store is `t`.
  pub flushed-IsSafe :
      (a : FlushAnswer) (w : World) (t : Store) (q : List Sent)
      → IsSafe j w q
      → ((h : Sent) → IsStored w.store h → IsStored t h)
      → (a ≡ status 200 → All (IsStored t) (take batch_limit q))
      → IsSafe j (record w { buffer = (flush j a w.buffer).0; store = t }) (left a q)
  flushed-IsSafe a w t q safe keeps stored =
      let holds = flush-Holds j law a w.buffer q safe.small safe.represents in
      record {
        represents = holds.0;
        small = omega (arith, holds.1, safe.small);
        nowhere_lost =
            All-mono (IsAccounted w.discarded w.store q) (IsAccounted w.discarded t (left a q))
              w.log
              (λ h.
                IsAccounted-mono w.discarded w.store t q (left a q) h
                  (λ k. elim k [ inl i ↦ inl (keeps h i) | inr i ↦ moved a t q h stored i ]))
              safe.nowhere_lost;
      }

  -- What is posted, is what the queue starts with.
  pub posted_batch :
      (sent_at : ℕ) (w : World) (q : List Sent)
      → IsSafe j w q
      → flush_batch j sent_at w.buffer ≡ posted sent_at (some (take batch_limit q))
  posted_batch sent_at w q safe = flush_batch_lem j law sent_at w.buffer q safe.represents

  pub handled-IsSafe :
      (sent_at now : ℕ) (a : FlushAnswer) (w : World) (q : List Sent)
      → (a ≡ status 200 → status_of (served j hash_token token sent_at now w).0 ≡ 200)
      → IsSafe j w q
      → IsSafe j
          (record w {
            buffer = (flush j a w.buffer).0;
            store =
                store_after
                  (flush_batch j sent_at w.buffer)
                  w.store
                  (served j hash_token token sent_at now w).1;
          })
          (left a q)
  handled-IsSafe sent_at now a w q answer safe =
      flushed-IsSafe a w (next j hash_token token now w.store (flush_batch j sent_at w.buffer)) q
        safe (next-keeps j hash_token token now w.store (flush_batch j sent_at w.buffer))
        (λ e.
          subst
            (λ batch.
              status_of (ingest hash_token now (batch_request j token batch) w.store).0 ≡ 200
              → All (IsStored (next j hash_token token now w.store batch)) (take batch_limit q))
            (sym (posted_batch sent_at w q safe))
            (next-stores j hash_token token now w.store sent_at q) (answer e))
