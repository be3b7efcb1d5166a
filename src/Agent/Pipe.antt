-- ===== src/Agent/Pipe.antt =====
-- The parts of `PipeServer` in internal/agent/pipe_windows.go that do not call the operating system: who
-- may connect, whether a watcher is attached, and what is read from it.
pub mod Arrivals
use screwlogger.Base.{
  ℕ, Bool, true, false, ◌||◌, none, some, List, [], ◌∷◌, leb, if◌then◌else◌, length, is_empty, Text,
  codes, concat, text_eq,
}
use screwlogger.Agent.Buffer.{drop_cr}
use screwlogger.Agent.Samples.{Sample, SampleJson, decode_sample}

-- The fields that are not handles of the system.
pub record Pipe : Type 0 where
  pub sddl : Text
  pub is_connected : Bool
  pub is_dirty : Bool

-- `baseSD`
abbrev pub base_sd : Text
base_sd = codes "D:P(A;;GA;;;SY)(A;;GA;;;BA)"

-- `NewPipeServer`
abbrev pub new_pipe : Pipe
new_pipe = record { sddl = base_sd; is_connected = false; is_dirty = false }

abbrev pub sddl_of : Text → Text
sddl_of user = concat (base_sd ∷ codes "(A;;FRFW;;;" ∷ user ∷ codes ")" ∷ [])

-- `EnsureSDDL`; the client and the instance that waits for one are closed with the connection.
unfoldable pub ensure_sddl : Text → Pipe → Pipe
ensure_sddl user p =
    if is_empty user || text_eq (sddl_of user) p.sddl
    then p
    else record { sddl = sddl_of user; is_connected = false; is_dirty = true }

-- The limit of `sc.Buffer`: a longer line ends the scan.
abbrev pub max_sample : ℕ
max_sample = 4096

module _ (j : SampleJson) where
  -- The loop of `readClient`, on the lines of the connection, with a channel that has room.
  unfoldable pub read_client : List Text → List Sample
  unfolding drop_cr decode_sample
  read_client [] = []
  read_client (l ∷ ls) =
      let rest = read_client ls in
      if leb max_sample (length l)
      then []
      else elim (decode_sample j (drop_cr l)) [ none ↦ rest | some s ↦ s ∷ rest ]
