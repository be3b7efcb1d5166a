-- ===== src/Agent/Examples/Buffers.antt =====
-- A buffer with a heartbeat that is acknowledged and two that are not.
use screwlogger.Base.{
  ℕ, ◌≡◌, refl, true, none, some, [], ◌∷◌, ◌++◌, map, arith, take, drop, Text, codes,
}
use screwlogger.Server.Store.{Sent}
use screwlogger.Agent.Buffer.{Buffer, encode, unacked, append, ack, open_buffer}
use screwlogger.Agent.Buffer.Lines.{Fits}
use screwlogger.Agent.Buffer.Queue.{Represents, kept}
use screwlogger.Agent.Buffer.Refines.{buffer_refines}
use screwlogger.Agent.Shipper.{next_interval}
use screwlogger.Agent.Examples.Codec.{codec, codec-IsJson}

abbrev sent : Text → ℕ → Sent
sent id ts = record { id = id; ts = ts; app = codes "x"; category = codes "M"; active = true }

abbrev one : Sent
one = sent (codes "u1") 100

abbrev two : Sent
two = sent (codes "u2") 115

abbrev three : Sent
three = sent (codes "u3") 130

abbrev content : Text
content = encode codec (one ∷ two ∷ three ∷ [])

-- Ten bytes for each line.
abbrev part : Buffer
part = record { max_bytes = 15; file = content; acked_off = 10; size = 30 }

part-Represents : Represents codec part (two ∷ three ∷ [])
unfolding encode
part-Represents = record {
  done = one ∷ [];
  content = refl;
  offset = refl;
  fits = (omega arith, (omega arith, (omega arith, tt)));
}

buffer_refines_example :
    ((limit : ℕ) → unacked codec limit part ≡ some (take limit (two ∷ three ∷ [])))
    × ((h : Sent)
        → Fits codec h
        → (c : Buffer) × (append codec h part ≡ some c)
          × Represents codec c (kept part (two ∷ three ∷ []) ++ h ∷ []))
    × ((n : ℕ)
        → ((ack codec n part).1 ≡ true)
          × Represents codec (ack codec n part).0 (drop n (two ∷ three ∷ [])))
buffer_refines_example =
    buffer_refines codec part (two ∷ three ∷ []) codec-IsJson part-Represents (omega arith)

-- The buffer is over its limit, so the older of the two goes.
overflow : map (λ (h : Sent). h.ts) (kept part (two ∷ three ∷ [])) ≡ 130 ∷ []
overflow = refl

-- Acknowledging one line leaves less than half of the file, which is then written anew.
compacted : (ack codec 1 part).0.file ≡ encode codec (three ∷ [])
unfolding ack encode
compacted = refl

-- A line that is no heartbeat makes the scan fail.
corrupt : unacked codec 5 (open_buffer 15 (1 ∷ 10 ∷ content)) ≡ none
unfolding unacked open_buffer encode
corrupt = refl

waits : map (λ n. (next_interval true n).0) (0 ∷ 1 ∷ 2 ∷ 7 ∷ []) ≡ 15 ∷ 60 ∷ 300 ∷ 300 ∷ []
unfolding next_interval
waits = refl
