-- ===== src/Agent/Examples/Watchers.antt =====
-- A user who logs on before the watcher can be started, and the samples of a watcher.
use screwlogger.Base.{
  ℕ, ◌+◌, ◌-◌, ◌*◌, ◌≤◌, ◌≡◌, refl, true, false, Option, none, some, List, [], ◌∷◌, map, arith,
  ◌==◌, if◌then◌else◌, length, Text, codes, concat, text_eq, pos,
}
use screwlogger.Agent.Watcher.{
  Attempt, dial_retry, dial_budget, cancelled_dial, dialled, WatcherTick, watcher_tick, LoopTick,
  failed_exit, clean_exit, run_watcher, watcher_loop, dial_retry_ends,
}
use screwlogger.Agent.Buffer.{raw_lines}
use screwlogger.Agent.Buffer.Lines.{OneLine}
use screwlogger.Agent.Samples.{Sample, SampleJson, encode_sample}
use screwlogger.Agent.Pipe.{Pipe, new_pipe, ensure_sddl, read_client}
use screwlogger.Agent.Pipe.Arrivals.{IsSampleJson, named, read_client-encode_sample}
use screwlogger.Agent.Spawner.{
  Spawner, Seen, User, no_token, user, new_spawner, consume_ladder, Reconciled, reconcile,
}
use screwlogger.Agent.Spawner.Rate.{Tries, no_tries, one_more, launches_bounded}

-- One byte for the flag, and the bytes of the name above those that separate lines.
abbrev lifted : Text → Text
lifted [] = []
lifted (c ∷ s) = (c + 14) ∷ lifted s

abbrev lowered : Text → Text
lowered [] = []
lowered (c ∷ s) = (c - 14) ∷ lowered s

abbrev marshal_sample : Sample → Text
marshal_sample s = (if s.active then 1 else 0) ∷ lifted s.app

abbrev unmarshal_sample : Text → Option Sample
unmarshal_sample [] = none
unmarshal_sample (f ∷ s) = some (record { app = lowered s; active = f == 1 })

abbrev sample_codec : SampleJson
sample_codec = record { marshal_sample = marshal_sample; unmarshal_sample = unmarshal_sample }

lifted-OneLine : (s : Text) → OneLine (lifted s)
lifted-OneLine [] = tt
lifted-OneLine (c ∷ s) = ((omega arith, omega arith), lifted-OneLine s)

lowered-lifted : (s : Text) → lowered (lifted s) ≡ s
lowered-lifted [] = refl
lowered-lifted (c ∷ s) = let back : c + 14 - 14 ≡ c = omega arith in rw (back, lowered-lifted s)

sample_codec-IsSampleJson : IsSampleJson sample_codec
sample_codec-IsSampleJson = record {
  one_line = λ s. ((ground arith, ground arith), lifted-OneLine s.app);
  some_line = λ s. refl;
  roundtrip = λ s. ground (arith, lowered-lifted s.app);
}

abbrev samples : List Sample
samples =
    (record { app = codes "mes.exe"; active = true })
    ∷ (record { app = []; active = false })
    ∷ (record { app = codes "x"; active = false })
    ∷ []

read_client-encode_sample_example :
    read_client sample_codec (raw_lines (concat (map (encode_sample sample_codec) samples)))
    ≡ named samples
read_client-encode_sample_example =
    read_client-encode_sample sample_codec samples sample_codec-IsSampleJson
      (omega arith, (omega arith, (omega arith, tt)))

names_arrived : map (λ (s : Sample). s.app) (named samples) ≡ codes "mes.exe" ∷ codes "x" ∷ []
unfolding named
names_arrived = refl

abbrev at : ℕ → User → Option Text → Seen
at now found e = record { console = 1; found = found; now = now; launch_error = e }

abbrev nothing_done : Reconciled
nothing_done = record { launched = false; pipe = new_pipe; spawner = new_spawner }

abbrev after : Seen → Pipe → Spawner → Reconciled
after seen p s = elim (reconcile seen p s) [ none ↦ nothing_done | some r ↦ r ]

-- The session has no user token yet.
abbrev first_try : Reconciled
first_try = after (at 100 (no_token (codes "denied")) none) new_pipe new_spawner

-- A second later the watcher is launched.
abbrev second_try : Reconciled
second_try = after (at 101 (user (codes "S-1")) none) first_try.pipe first_try.spawner

-- It has not attached yet after four more seconds, which is too early for another one.
abbrev third_try : Reconciled
third_try = after (at 105 (user (codes "S-1")) none) second_try.pipe second_try.spawner

launches :
    first_try.launched ∷ second_try.launched ∷ third_try.launched ∷ [] ≡ false ∷ true ∷ false ∷ []
unfolding reconcile ensure_sddl text_eq consume_ladder
launches = refl

waits : second_try.spawner.next_attempt ∷ third_try.spawner.ladder_idx ∷ [] ≡ 106 ∷ 2 ∷ []
unfolding reconcile ensure_sddl text_eq consume_ladder
waits = refl

-- A watcher of another user is dropped.
switched :
    (ensure_sddl (codes "S-2") (record second_try.pipe { is_connected = true })).is_connected
    ≡ false
unfolding reconcile ensure_sddl text_eq consume_ladder
switched = refl

series : Tries 100 new_spawner 105 1 third_try.spawner
unfolding reconcile ensure_sddl text_eq consume_ladder
series =
    one_more 101 1 second_try.spawner (at 105 (user (codes "S-1")) none) second_try.pipe third_try
      (one_more 100 0 first_try.spawner (at 101 (user (codes "S-1")) none) first_try.pipe second_try
        (one_more 100 0 new_spawner (at 100 (no_token (codes "denied")) none) new_pipe first_try
          no_tries (omega arith) refl refl)
        (omega arith) refl refl)
      (omega arith) refl refl

launches_bounded_example :
    (30 * 1 ≤ (105 - 100) + 84)
    × ((seen : Seen) (p : Pipe) → (r : Reconciled) × (reconcile seen p third_try.spawner ≡ some r))
launches_bounded_example = launches_bounded 100 105 1 new_spawner third_try.spawner refl series

-- The pipe is there at the second attempt.
abbrev attempts : List Attempt
attempts =
    (record { at = 1010; error = some (codes "no pipe") })
    ∷ (record { at = 1520; error = none })
    ∷ []

dial_retry_ends_example :
    ((dial_retry (1000 + dial_budget) attempts).0 ≤ 32)
    × ((dial_retry (1000 + dial_budget) attempts).1 ≡ cancelled_dial
        → (dial_retry (1000 + dial_budget) attempts).0 ≡ length attempts)
dial_retry_ends_example = dial_retry_ends 1000 attempts (omega arith, (omega arith, tt))

second_attempt : dial_retry (1000 + dial_budget) attempts ≡ (2, dialled)
unfolding dial_retry
second_attempt = refl

-- A watcher of another session writes nothing.
abbrev hidden : WatcherTick
hidden = record { own = some 1; console = 2; app = codes "x"; idle = 0; write_fails = true }

paused : watcher_tick sample_codec (pos 180) hidden ≡ ([], true)
paused = refl

-- The pipe stays unreachable, and the watcher ends with the error of the last attempt.
never :
    run_watcher sample_codec
      (pos 180)
      0
      ((record { at = 9000; error = some (codes "no pipe") })
        ∷ (record { at = 16000; error = some (codes "still none") })
        ∷ [])
      false
      []
    ≡ ([], failed_exit (codes "still none"))
unfolding run_watcher dial_retry
never = refl

-- The first session is not that of the console; then one sample is written.
abbrev tick_of : ℕ → LoopTick
tick_of own = record {
  start = 2000;
  attempts = [];
  is_cancelled = false;
  seen = record hidden { own = some own };
}

written_once :
    run_watcher sample_codec (pos 180) 1000 attempts false (tick_of 1 ∷ tick_of 2 ∷ [])
    ≡ (encode_sample sample_codec (record { app = codes "x"; active = true }), clean_exit)
unfolding run_watcher watcher_loop dial_retry
written_once = refl
