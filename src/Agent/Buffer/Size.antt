-- ===== src/Agent/Buffer/Size.antt =====
-- The file of internal/agent/buffer.go grows with appended heartbeats only.
use screwlogger.Base.{
  ℕ, zero, suc, ◌+◌, ◌*◌, ◌≤◌, inl, inr, List, [], ◌∷◌, ◌++◌, arith, leb, Bool-cases, length,
  length-append, take, drop, length-drop,
}
use screwlogger.Server.Store.{Sent}
use screwlogger.Agent.Buffer.{Json, Buffer, all, line, encode, rewrite, acked, ack}
use screwlogger.Agent.Buffer.Lines.{IsJson, encode-append}
use screwlogger.Agent.Buffer.Queue.{Represents, compact-Represents, moved-Represents, ack_scan}

module _ (j : Json) where
  length-encode-le : (q : List Sent) → length q ≤ length (encode j q)
  unfolding encode
  length-encode-le [] = omega arith
  length-encode-le (h ∷ q) = omega (
    arith,
    length-encode-le q,
    length-append (line j h) (encode j q),
    length-append (j.marshal h) (10 ∷ []),
  )

  length-encode-right : (xs ys : List Sent) → length (encode j ys) ≤ length (encode j (xs ++ ys))
  length-encode-right xs ys =
      rw (encode-append j xs ys) (omega (arith, length-append (encode j xs) (encode j ys)))

  encode-le-file :
      (b : Buffer) (q : List Sent) → Represents j b q → length (encode j q) ≤ length b.file
  encode-le-file b q r = rw r.content (length-encode-right r.done q)

  pub length-le-file : (b : Buffer) (q : List Sent) → Represents j b q → length q ≤ length b.file
  length-le-file b q r = omega (arith, length-encode-le q, encode-le-file b q r)

  pub length-drop-le :
      (n : ℕ) (b : Buffer) (q : List Sent)
      → Represents j b q
      → length b.file ≤ all
      → length (drop n q) ≤ all
  length-drop-le n b q r small = omega (arith, length-drop n q, length-le-file b q r)

  module _ (law : IsJson j) where
    acked-file :
        (n : ℕ) (b : Buffer) (q : List Sent)
        → length b.file ≤ all
        → Represents j b q
        → length (acked j (length (encode j (take n q))) b).0.file ≤ length b.file
    acked-file n b q small r =
        let c = record b { acked_off = b.acked_off + length (encode j (take n q)) } in
        let moved = moved-Represents j law n b q r in
        elim (Bool-cases (leb c.size (c.acked_off * 2))) [
          | inl e ↦
              rw (e, compact-Represents j law c (drop n q) (length-drop-le n b q r small) moved)
                (unfold rewrite in encode-le-file c (drop n q) moved)
          | inr e ↦ rw e (omega arith)
        ]

    pub ack-file :
        (n : ℕ) (b : Buffer) (q : List Sent)
        → length b.file ≤ all
        → Represents j b q
        → length (ack j n b).0.file ≤ length b.file
    ack-file zero b q small r = unfold ack in omega arith
    ack-file (suc n) b q small r = rw (ack_scan j law n b q r) (acked-file (suc n) b q small r)
