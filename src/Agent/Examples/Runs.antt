-- ===== src/Agent/Examples/Runs.antt =====
-- A short life of an agent: one heartbeat, one upload that is under way when the agent is stopped.
use screwlogger.Base.{
  ◌+◌, ◌*◌, ◌≤◌, ◌≡◌, refl, ◌⊎◌, Bool, true, false, not, ◌&&◌, ◌||◌, Option, none, some, [], Text,
  codes, pos,
}
use screwlogger.Agent.Observe.{Agent}
use screwlogger.Agent.Run.{
  new_agent, wants_flush, flushing, uploader_owns, joining, returned, ended, Threads, started_with,
  is_active, Step, cancelling, stops, fires, locks_flush, Reached, at_start, and_then,
}
use screwlogger.Agent.Run.Invariant.{poller_inside, uploader_inside, is_ended, run_exclusive}
use screwlogger.Agent.Run.Ends.{no_steps, inside, run_ends}
use screwlogger.Agent.Config.{Config, load_config}
use screwlogger.Agent.Examples.Codec.{codec}

abbrev no_match : Text → Text → Option Bool
no_match pattern app = some false

abbrev config : Config
config = record {
  server_url = codes "http://localhost";
  token = codes "sl_a";
  data_dir = codes "data";
  idle_threshold_seconds = pos 180;
  poll_interval = 1;
  flush_interval = 15;
  max_buffer_bytes = 100;
}

-- There is no file of rules.
abbrev agent : Agent
agent = new_agent config none []

abbrev at_rest : Threads
at_rest = started_with agent

abbrev fired : Threads
fired = record at_rest { uploader = wants_flush }

abbrev uploading : Threads
uploading = record fired { uploader = flushing; mutex = uploader_owns }

abbrev stopped : Threads
stopped = record uploading { cancelled = true }

-- The upload has begun when the context is cancelled.
reached : Reached codec no_match agent stopped
reached =
    and_then uploading stopped true
      (and_then fired uploading false (and_then at_rest fired true at_start (fires refl))
        (locks_flush refl refl))
      cancelling

run_exclusive_example :
    ((poller_inside stopped.poller && uploader_inside stopped.uploader) ≡ false)
    × (((poller_inside stopped.poller || uploader_inside stopped.uploader) && not stopped.is_open)
        ≡ false)
    × ((not stopped.is_open && not (is_ended stopped.uploader)) ≡ false)
run_exclusive_example = run_exclusive codec no_match agent stopped reached

abbrev joining_threads : Threads
joining_threads = record stopped { poller = joining }

run_ends_example :
    (1 ≤ 10 + 3 * 0)
    × (((u : Threads) × Step codec no_match joining_threads false u)
        ⊎ ((joining_threads.poller ≡ returned)
            × (joining_threads.uploader ≡ ended)
            × (joining_threads.is_open ≡ false)))
run_ends_example =
    run_ends codec no_match agent 0 1 stopped joining_threads reached refl
      (inside 0 0 stopped stopped joining_threads (no_steps stopped) (stops refl refl))

-- The threshold is 180 seconds if the file has none.
loaded :
    load_config (record {
      file_server_url = codes "https://s";
      file_token = codes "sl_a";
      file_data_dir = codes "d";
      file_idle_threshold = pos 0;
    })
    ≡ some (record {
      server_url = codes "https://s";
      token = codes "sl_a";
      data_dir = codes "d";
      idle_threshold_seconds = pos 180;
      poll_interval = 1;
      flush_interval = 60;
      max_buffer_bytes = 16777216;
    })
unfolding load_config
loaded = refl

active_at : is_active 179_999 (pos 180) ≡ true
active_at = refl
