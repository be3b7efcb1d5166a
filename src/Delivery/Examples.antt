-- ===== src/Delivery/Examples.antt =====
-- A heartbeat that is delivered although the answer to its first upload is lost and the agent is
-- restarted.
use screwlogger.Base.{
  ◌≡◌, refl, true, none, some, List, [], ◌∷◌, arith, length, All, Text, codes, text_eq,
}
use screwlogger.Server.Store.{Sent, Store, device_id_by_token, insert_heartbeats, ok}
use screwlogger.Server.Ingest.{ingest}
use screwlogger.Agent.Buffer.{Buffer, all, unacked, append, ack, open_buffer, encode}
use screwlogger.Agent.Shipper.{unanswered, flush, flush_batch}
use screwlogger.Agent.Examples.Codec.{codec, codec-IsJson}
use screwlogger.Delivery.{
  World, overflowed, appended, unheard, reopened, Run, begin, then_event, beginning, served,
  store_after,
}
use screwlogger.Delivery.Uploads.{IsAccounted}
use screwlogger.Delivery.Safe.{nothing_lost}
use screwlogger.Delivery.Rounds.{rounds, IsDone, all_delivered}

-- A stand-in for the hash of a token.
abbrev tagged : Text → Text
tagged s = b'#' ∷ s

abbrev token : Text
token = codes "sl_a"

abbrev store : Store
store = record {
  devices =
      record {
        id = codes "a";
        name = codes "PC 4";
        token_hash = codes "#sl_a";
        enrolled_at = 10;
        last_seen = none;
        revoked_at = none;
      }
      ∷ [];
  heartbeats = [];
}

abbrev sent : Sent
sent = record { id = codes "u1"; ts = 100; app = codes "x"; category = codes "M"; active = true }

abbrev at_first : World
at_first = beginning 50 store

abbrev after_append : World
after_append = record at_first {
  buffer = record at_first.buffer { file = encode codec (sent ∷ []); size = 10 };
  log = sent ∷ [];
}

appending : append codec sent at_first.buffer ≡ some after_append.buffer
unfolding append open_buffer encode
appending = refl

-- The heartbeat is stored without the agent knowing, which is then restarted.
abbrev after_unheard : World
after_unheard = record after_append {
  buffer = (flush codec unanswered after_append.buffer).0;
  store =
      store_after (flush_batch codec 120 after_append.buffer) after_append.store
        (served codec tagged token 120 125 after_append).1;
}

abbrev after_restart : World
after_restart = record after_unheard { buffer = open_buffer 50 after_unheard.buffer.file }

run : Run codec tagged token store after_restart
unfolding encode overflowed open_buffer
run =
    then_event
      (then_event
        (then_event (begin 50)
          (appended sent after_append.buffer (omega arith) appending (omega arith)))
        (unheard 120 125))
      (reopened 50)

waiting : unacked codec all after_restart.buffer ≡ some (sent ∷ [])
unfolding unacked open_buffer encode flush
waiting = refl

enrolled : device_id_by_token tagged token after_restart.store ≡ ok (codes "a")
unfolding device_id_by_token open_buffer encode flush_batch ingest insert_heartbeats text_eq unacked
enrolled = refl

nothing_lost_example :
    (q : List Sent) × (unacked codec all after_restart.buffer ≡ some q)
    × All (IsAccounted after_restart.discarded after_restart.store q) after_restart.log
nothing_lost_example = nothing_lost codec tagged token store after_restart codec-IsJson run

all_delivered_example :
    (unacked codec all (rounds codec tagged token ((130, 135) ∷ []) after_restart).buffer ≡ some [])
    × All
        (IsDone after_restart.discarded
          (rounds codec tagged token ((130, 135) ∷ []) after_restart).store)
        after_restart.log
all_delivered_example =
    all_delivered codec tagged token (codes "a") store after_restart (sent ∷ []) ((130, 135) ∷ [])
      codec-IsJson (omega arith) run enrolled waiting (omega arith) (omega arith, tt)

-- The heartbeat is one row, although it was delivered twice.
once : length (rounds codec tagged token ((130, 135) ∷ []) after_restart).store.heartbeats ≡ 1
unfolding device_id_by_token open_buffer encode flush_batch flush ingest insert_heartbeats text_eq
    unacked ack
once = refl

abbrev other : Sent
other = record { id = codes "u2"; ts = 101; app = codes "y"; category = codes "M"; active = true }

abbrev full : Buffer
full = record { file = encode codec (sent ∷ other ∷ []); acked_off = 0; size = 20; max_bytes = 19 }

-- A buffer that is over its limit drops the older one of two heartbeats.
older_dropped : overflowed codec full ≡ sent ∷ []
unfolding overflowed encode unacked
older_dropped = refl

-- One within its limit drops none.
none_dropped : overflowed codec (record full { max_bytes = 20 }) ≡ []
unfolding overflowed encode
none_dropped = refl
