-- ===== src/Delivery/Safe.antt =====
-- The way of the heartbeats from internal/agent to internal/server as a whole: all events.
use screwlogger.Base.{
  ℕ, ◌-◌, ◌/◌, ◌≤◌, ◌≡◌, refl, ◌⊎◌, inl, inr, some, List, [], ◌∷◌, ◌++◌, arith, leb, Bool-cases,
  length, IsIn, IsIn-append_left, IsIn-append_right, IsIn-take-drop, All-mono, All, All-append,
  Text,
}
use mathlib.Core.Path.{subst}
use screwlogger.Server.Store.{Sent, Store}
use screwlogger.Server.Ingest.{status_of}
use screwlogger.Agent.Buffer.{encode, unacked, Json, Buffer, open_buffer, all, append}
use screwlogger.Agent.Buffer.Lines.{IsJson, Fits}
use screwlogger.Agent.Buffer.Queue.{unacked-all, Represents, kept, append-Represents}
use screwlogger.Agent.Buffer.Refines.{open_buffer-Represents}
use screwlogger.Agent.Buffer.Size.{length-le-file}
use screwlogger.Agent.Shipper.{unanswered, status}
use screwlogger.Agent.Shipper.Sending.{left}
use screwlogger.Delivery.{
  World, overflowed, removed_with, deleted_one, served, DeliveryEvent, appended, lost, unheard,
  heard, elsewhere, reopened, Run, begin, then_event,
}
use screwlogger.Delivery.Stored.{
  Elsewhere-keeps, delete_device-keeps, IsIn-removed_with, All-own, All-and,
}
use screwlogger.Server.Store.{delete_device, ok}
use screwlogger.Delivery.Uploads.{
  IsAccounted, IsAccounted-mono, IsSafe, flushed-IsSafe, handled-IsSafe,
}

module _ (j : Json) (hash_token : Text → Text) (token : Text) (law : IsJson j) where
  overflowed-Represents :
      (b : Buffer) (q : List Sent) (h : Sent)
      → Represents j b q
      → length q ≤ all
      → IsIn h q
      → IsIn h (overflowed j b) ⊎ IsIn h (kept b q)
  unfolding overflowed
  overflowed-Represents b q h r few k = elim (Bool-cases (leb (b.size - b.acked_off) b.max_bytes)) [
    | inl e ↦ inr (rw e k)
    | inr e ↦ rw (e, overflowed, unacked-all j law b q r few) (IsIn-take-drop h (length q / 2) q k)
  ]

  append-IsAccounted :
      (h : Sent) (w : World) (q : List Sent) (x : Sent)
      → Represents j w.buffer q
      → length q ≤ all
      → IsAccounted w.discarded w.store q x
      → IsAccounted (w.discarded ++ overflowed j w.buffer) w.store (kept w.buffer q ++ h ∷ []) x
  append-IsAccounted h w q x r few (inl i) =
      inl (IsIn-append_left x w.discarded (overflowed j w.buffer) i)
  append-IsAccounted h w q x r few (inr (inl i)) = inr (inl i)
  append-IsAccounted h w q x r few (inr (inr i)) =
      elim (overflowed-Represents w.buffer q x r few i) [
        | inl k ↦ inl (IsIn-append_right x w.discarded (overflowed j w.buffer) k)
        | inr k ↦ inr (inr (IsIn-append_left x (kept w.buffer q) (h ∷ []) k))
      ]

  appended-IsSafe :
      (h : Sent) (c : Buffer) (w : World) (q : List Sent)
      → Fits j h
      → append j h w.buffer ≡ some c
      → length c.file ≤ all
      → IsSafe j w q
      → IsSafe j
          (record w {
            buffer = c;
            log = w.log ++ h ∷ [];
            discarded = w.discarded ++ overflowed j w.buffer;
          })
          (kept w.buffer q ++ h ∷ [])
  appended-IsSafe h c w q f e small safe =
      let few : length q ≤ all =
        omega (arith, length-le-file j w.buffer q safe.represents, safe.small) in
      let (d, g, r) = append-Represents j law h w.buffer q f few safe.represents in
      let same : d ≡ c = cc (e, g) in
      let p = kept w.buffer q ++ h ∷ [] in
      let discarded = w.discarded ++ overflowed j w.buffer in
      record {
        represents = subst (λ (b : Buffer). Represents j b p) same r;
        small = small;
        nowhere_lost =
            All-append (IsAccounted discarded w.store p) w.log (h ∷ [])
              (All-mono (IsAccounted w.discarded w.store q) (IsAccounted discarded w.store p) w.log
                (λ x. append-IsAccounted h w q x safe.represents few) safe.nowhere_lost)
              (inr (inr (IsIn-append_right h (kept w.buffer q) (h ∷ []) (inl refl))), tt);
      }

  reopened-IsSafe :
      (max : ℕ) (w : World) (q : List Sent)
      → IsSafe j w q
      → (p : List Sent) × IsSafe j (record w { buffer = open_buffer max w.buffer.file }) p
  reopened-IsSafe max w q safe =
      let (old, r, k) = open_buffer-Represents j w.buffer q max safe.represents in
      (
        old ++ q,
        record {
          represents = r;
          small = unfold open_buffer in safe.small;
          nowhere_lost =
              All-mono (IsAccounted w.discarded w.store q)
                (IsAccounted w.discarded w.store (old ++ q)) w.log
                (λ x.
                  IsAccounted-mono w.discarded w.store w.store q (old ++ q) x
                    (λ k. elim k [ inl i ↦ inl i | inr i ↦ inr (IsIn-append_right x old q i) ]))
                safe.nowhere_lost;
        },
      )

  deleted-IsAccounted :
      (id : Text) (w : World) (t : Store) (q : List Sent) (h : Sent)
      → delete_device id w.store ≡ ok t
      → IsIn h w.log
      → IsAccounted w.discarded w.store q h
      → IsAccounted (w.discarded ++ removed_with id w.store w.log) t q h
  deleted-IsAccounted id w t q h e own (inl i) =
      inl (IsIn-append_left h w.discarded (removed_with id w.store w.log) i)
  deleted-IsAccounted id w t q h e own (inr (inr i)) = inr (inr i)
  deleted-IsAccounted id w t q h e own (inr (inl k)) =
      elim (delete_device-keeps id w.store t h e k) [
        | inl i ↦ inr (inl i)
        | inr i ↦ inl (
            IsIn-append_right h w.discarded (removed_with id w.store w.log)
              (IsIn-removed_with id w.store h w.log i own))
      ]

  deleted-IsSafe :
      (id : Text) (w : World) (t : Store) (q : List Sent)
      → delete_device id w.store ≡ ok t
      → IsSafe j w q
      → IsSafe j
          (record w { store = t; discarded = w.discarded ++ removed_with id w.store w.log })
          q
  deleted-IsSafe id w t q e safe =
      let Known : Sent → Type 0 = λ h. IsIn h w.log × IsAccounted w.discarded w.store q h in
      let Then : Sent → Type 0 = IsAccounted (w.discarded ++ removed_with id w.store w.log) t q in
      record {
        represents = safe.represents;
        small = safe.small;
        nowhere_lost =
            All-mono Known Then w.log (λ h (own, k). deleted-IsAccounted id w t q h e own k)
              (All-and (λ h. IsIn h w.log) (IsAccounted w.discarded w.store q) w.log (All-own w.log)
                safe.nowhere_lost);
      }

  event-IsSafe :
      (v w : World) (q : List Sent)
      → DeliveryEvent j hash_token token v w
      → IsSafe j v q
      → (p : List Sent) × IsSafe j w p
  event-IsSafe v w q (appended h c f e small) safe =
      (kept v.buffer q ++ h ∷ [], appended-IsSafe h c v q f e small safe)
  event-IsSafe v w q lost safe =
      (q, flushed-IsSafe j hash_token token law unanswered v v.store q safe (λ h k. k) (λ e. cc e))
  event-IsSafe v w q (unheard sent_at now) safe =
      (q, handled-IsSafe j hash_token token law sent_at now unanswered v q (λ e. cc e) safe)
  event-IsSafe v w q (heard sent_at now) safe =
      let a = status (status_of (served j hash_token token sent_at now v).0) in
      (left a q, handled-IsSafe j hash_token token law sent_at now a v q (λ e. cc e) safe)
  event-IsSafe v w q (elsewhere t e) safe = (
    q,
    record {
      represents = safe.represents;
      small = safe.small;
      nowhere_lost =
          All-mono (IsAccounted v.discarded v.store q) (IsAccounted v.discarded t q) v.log
            (λ h. IsAccounted-mono v.discarded v.store t q q h (λ k. elim k [
              | inl i ↦ inl (Elsewhere-keeps hash_token v.store t h e i)
              | inr i ↦ inr i
            ]))
            safe.nowhere_lost;
    },
  )
  event-IsSafe v w q (deleted_one id t e) safe = (q, deleted-IsSafe id v t q e safe)
  event-IsSafe v w q (reopened max) safe = reopened-IsSafe max v q safe

  pub Run-IsSafe :
      (s : Store) (w : World) → Run j hash_token token s w → (q : List Sent) × IsSafe j w q
  Run-IsSafe s w (begin max) = (
    [],
    record {
      represents = record {
        done = [];
        content = unfold open_buffer in unfold encode in refl;
        offset = unfold open_buffer in unfold encode in refl;
        fits = tt;
      };
      small = unfold open_buffer in omega arith;
      nowhere_lost = tt;
    },
  )
  Run-IsSafe s w (then_event {v} r e) =
      let (q, safe) = Run-IsSafe s v r in event-IsSafe v w q e safe

-- Whatever happens, uploads that get lost on the way to the server or on the way back, refused
-- requests, overflows of the buffer, restarts of the agent and other requests to the server: `Unacked`
-- succeeds, and each heartbeat that was appended is in the table of the server, by its identifier, or
-- among those that `Unacked` gives, which the agent still uploads, or among those that an overflow
-- dropped or that the deletion of a device removed with its rows. The lines have less than 65536 bytes,
-- and the buffer is not larger than 2^30 bytes.
pub nothing_lost :
    (j : Json) (hash_token : Text → Text) (token : Text) (s : Store) (w : World)
    → IsJson j
    → Run j hash_token token s w
    → (q : List Sent) × (unacked j all w.buffer ≡ some q)
      × All (IsAccounted w.discarded w.store q) w.log
nothing_lost j hash_token token s w law r =
    let (q, safe) = Run-IsSafe j hash_token token law s w r in
    (
      q,
      unacked-all j law w.buffer q safe.represents
          (omega (arith, length-le-file j w.buffer q safe.represents, safe.small)),
      safe.nowhere_lost,
    )
