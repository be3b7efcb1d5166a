-- ===== src/Agent/Buffer/Queue.antt =====
-- The buffer of internal/agent/buffer.go as a queue of heartbeats: what its methods do in terms of
-- the heartbeats that are not acknowledged.
use screwlogger.Base.{
  ℕ, zero, suc, ◌+◌, ◌-◌, ◌*◌, ◌/◌, ◌≤◌, ◌≡◌, refl, sym, ap, ap₂, ◌∙◌, inl, inr, true, false, some,
  List, [], ◌∷◌, ◌++◌, map, arith, leb, ◌==◌, if◌then◌else◌, Bool-cases, length, length-append,
  take, drop, take-append-drop, take_all, All-drop, All-right, All, All-append,
}
use mathlib.Core.List.{append_assoc, append-nil}
use mathlib.Core.Path.{subst}
use screwlogger.Server.Store.{Sent}
use screwlogger.Agent.Buffer.{
  Json, Buffer, seek, raw_lines, advance, all, line, encode, unacked, rewrite, rotate_if_full,
  written, append, compact, acked, ack,
}
use screwlogger.Agent.Buffer.Lines.{
  IsJson, Fits, encode-append, raw_lines-encode, read_lines-encoded, advance-encoded, seek_append,
}

-- The heartbeats that stay when the buffer makes room.
abbrev pub kept : Buffer → List Sent → List Sent
kept b q = if leb (b.size - b.acked_off) b.max_bytes then q else drop (length q / 2) q

module _ (j : Json) where
  -- The file holds the acknowledged heartbeats and then those of the queue `q`, each on its line, and
  -- the offset is between the two.
  pub record Represents (b : Buffer) (q : List Sent) : Type 0 where
    pub done : List Sent
    pub content : b.file ≡ encode j (done ++ q)
    pub offset : b.acked_off ≡ length (encode j done)
    pub fits : All (Fits j) (done ++ q)

  rewrite-Represents : (q : List Sent) (b : Buffer) → All (Fits j) q → Represents (rewrite j q b) q
  unfolding rewrite encode
  rewrite-Represents q b f = record { done = []; content = refl; offset = refl; fits = f }

  -- One more line at the end.
  written-Represents :
      (h : Sent) (b : Buffer) (q : List Sent)
      → Fits j h
      → Represents b q
      → Represents (written j h b) (q ++ h ∷ [])
  written-Represents h b q f r = record {
    done = r.done;
    content =
        ap (◌++ line j h) r.content
        ∙ ap (encode j (r.done ++ q) ++◌) last
        ∙ sym (encode-append j (r.done ++ q) (h ∷ []))
        ∙ ap (encode j) (append_assoc r.done q (h ∷ []));
    offset = r.offset;
    fits =
        subst (All (Fits j)) (append_assoc r.done q (h ∷ []))
          (All-append (Fits j) (r.done ++ q) (h ∷ []) r.fits (f, tt));
  }
    where
      last : line j h ≡ encode j (h ∷ [])
      last = sym (append-nil (line j h)) ∙ unfold encode in refl

  module _ (law : IsJson j) where
    seek-Represents :
        (b : Buffer) (q : List Sent)
        → Represents b q
        → raw_lines (seek b.acked_off b.file) ≡ map j.marshal q
    seek-Represents b q r =
        ap raw_lines (
          ap₂ seek r.offset (r.content ∙ encode-append j r.done q)
          ∙ seek_append (encode j r.done) (encode j q))
        ∙ raw_lines-encode j law q

    pub unacked-Represents :
        (limit : ℕ) (b : Buffer) (q : List Sent)
        → Represents b q
        → unacked j limit b ≡ some (take limit q)
    unfolding unacked
    unacked-Represents zero b q r = refl
    unacked-Represents (suc n) b q r =
        rw (seek-Represents b q r)
          (ground (arith, read_lines-encoded j law (suc n) q (All-right (Fits j) r.done q r.fits)))

    pub unacked-all :
        (b : Buffer) (q : List Sent) → Represents b q → length q ≤ all → unacked j all b ≡ some q
    unacked-all b q r few = unacked-Represents all b q r ∙ ap some (take_all all q few)

    pub append-Represents :
        (h : Sent) (b : Buffer) (q : List Sent)
        → Fits j h
        → length q ≤ all
        → Represents b q
        → (c : Buffer) × (append j h b ≡ some c) × Represents c (kept b q ++ h ∷ [])
    unfolding append rotate_if_full
    append-Represents h b q f few r = elim (Bool-cases (leb (b.size - b.acked_off) b.max_bytes)) [
      | inl e ↦ (written j h b, rw (e, append, rotate_if_full), rw e (written-Represents h b q f r))
      | inr e ↦
          let half = drop (length q / 2) q in
          (
            written j h (rewrite j half b),
            rw (e, append, rotate_if_full, unacked-all b q r few),
            rw e (
                written-Represents h (rewrite j half b) half f (
                  rewrite-Represents half b
                    (All-drop (Fits j) (length q / 2) q (All-right (Fits j) r.done q r.fits)))),
          )
    ]

    pub compact-Represents :
        (b : Buffer) (q : List Sent)
        → length q ≤ all
        → Represents b q
        → compact j b ≡ (rewrite j q b, true)
    unfolding compact
    compact-Represents b q few r = rw (compact, unacked-all b q r few)

    -- The offset is moved past the first `n` lines of the queue.
    pub moved-Represents :
        (n : ℕ) (b : Buffer) (q : List Sent)
        → Represents b q
        → Represents
            (record b { acked_off = b.acked_off + length (encode j (take n q)) })
            (drop n q)
    moved-Represents n b q r =
        let whole : (r.done ++ take n q) ++ drop n q ≡ r.done ++ q =
          append_assoc r.done (take n q) (drop n q) ∙ ap (r.done ++◌) (take-append-drop n q) in
        record {
          done = r.done ++ take n q;
          content = r.content ∙ ap (encode j) (sym whole);
          offset =
              ap (◌+ length (encode j (take n q))) r.offset
              ∙ sym (length-append (encode j r.done) (encode j (take n q)))
              ∙ ap length (sym (encode-append j r.done (take n q)));
          fits = subst (All (Fits j)) (sym whole) r.fits;
        }

    acked-Represents :
        (n : ℕ) (b : Buffer) (q : List Sent)
        → length (drop n q) ≤ all
        → Represents b q
        → ((acked j (length (encode j (take n q))) b).1 ≡ true)
          × Represents (acked j (length (encode j (take n q))) b).0 (drop n q)
    acked-Represents n b q few r =
        let c = record b { acked_off = b.acked_off + length (encode j (take n q)) } in
        let moved = moved-Represents n b q r in
        elim (Bool-cases (leb c.size (c.acked_off * 2))) [
          | inl e ↦
              rw (e, compact-Represents c (drop n q) few moved)
                (
                  refl,
                  rewrite-Represents (drop n q) c
                      (All-right (Fits j) moved.done (drop n q) moved.fits),
                )
          | inr e ↦ rw e (refl, moved)
        ]

    pub ack_scan :
        (n : ℕ) (b : Buffer) (q : List Sent)
        → Represents b q
        → ack j (suc n) b ≡ acked j (length (encode j (take (suc n) q))) b
    unfolding ack
    ack_scan n b q r =
        let scan : advance (suc n) (raw_lines (seek b.acked_off b.file))
            ≡ some (length (encode j (take (suc n) q))) =
          ap (advance (suc n)) (seek-Represents b q r)
          ∙ advance-encoded j law (suc n) q (All-right (Fits j) r.done q r.fits) in
        let positive : (suc n == 0) ≡ false = ground arith in rw (ack, positive, scan)

    pub ack-Represents :
        (n : ℕ) (b : Buffer) (q : List Sent)
        → length (drop n q) ≤ all
        → Represents b q
        → ((ack j n b).1 ≡ true) × Represents (ack j n b).0 (drop n q)
    unfolding ack
    ack-Represents zero b q few r = (refl, r)
    ack-Represents (suc n) b q few r =
        subst (λ s. (s.1 ≡ true) × Represents s.0 (drop (suc n) q)) (sym (ack_scan n b q r))
          (acked-Represents (suc n) b q few r)
