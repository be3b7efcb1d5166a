-- ===== src/Agent/Buffer/Refines.antt =====
-- The buffer of internal/agent/buffer.go implements a queue, also across a restart.
use screwlogger.Base.{
  ℕ, ◌≤◌, ◌≡◌, refl, true, some, List, [], ◌∷◌, ◌++◌, arith, length, take, drop, length-drop,
}
use screwlogger.Server.Store.{Sent}
use screwlogger.Agent.Buffer.{Json, Buffer, open_buffer, all, encode, unacked, append, ack}
use screwlogger.Agent.Buffer.Lines.{IsJson, Fits}
use screwlogger.Agent.Buffer.Queue.{
  Represents, kept, unacked-Represents, append-Represents, ack-Represents,
}

-- The methods of the buffer do what those of a queue of heartbeats do, for lines of less than 65536
-- bytes and at most 2^30 heartbeats: `Unacked` gives the first ones, `Append` adds one at the end,
-- after the older half has been dropped if the unacknowledged bytes by the fields of the buffer exceed
-- the limit, and `Ack` removes the first ones. None of them fails.
pub buffer_refines :
    (j : Json) (b : Buffer) (q : List Sent)
    → IsJson j
    → Represents j b q
    → length q ≤ all
    → ((limit : ℕ) → unacked j limit b ≡ some (take limit q))
      × ((h : Sent)
          → Fits j h
          → (c : Buffer) × (append j h b ≡ some c) × Represents j c (kept b q ++ h ∷ []))
      × ((n : ℕ) → ((ack j n b).1 ≡ true) × Represents j (ack j n b).0 (drop n q))
buffer_refines j b q law r few = (
  λ limit. unacked-Represents j law limit b q r,
  λ h f. append-Represents j law h b q f few r,
  λ n. ack-Represents j law n b q (omega (arith, length-drop n q)) r,
)

-- A restart loses no heartbeat: the buffer that is opened on the file again holds the heartbeats that
-- were not acknowledged, after some that were. It takes its size for zero, so it drops nothing for
-- the next heartbeat, however large the file is.
pub open_buffer-Represents :
    (j : Json) (b : Buffer) (q : List Sent) (max : ℕ)
    → Represents j b q
    → (old : List Sent) × Represents j (open_buffer max b.file) (old ++ q)
      × (kept (open_buffer max b.file) (old ++ q) ≡ old ++ q)
unfolding open_buffer
open_buffer-Represents j b q max r = (
  r.done,
  record { done = []; content = r.content; offset = unfold encode in refl; fits = r.fits },
  ground arith,
)
