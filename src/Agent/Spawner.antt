-- ===== src/Agent/Spawner.antt =====
-- `Spawner` of internal/agent/spawn_windows.go: the reconciliation that keeps a watcher alive in the
-- console session, with its backoff. What the system answers is an argument. Times are in seconds; the
-- zero time, before which no time is, is 0.
pub mod Ladder
pub mod Rate
use screwlogger.Base.{
  ℕ, ◌+◌, ◌-◌, Bool, true, false, ◌||◌, Option, none, some, List, [], ◌∷◌, ◌++◌, ltb, ◌==◌,
  if◌then◌else◌, length, get_elem?, Text, codes, concat, text_eq,
}
use screwlogger.Web.Format.Decimal.{show}
use screwlogger.Agent.Pipe.{Pipe, ensure_sddl}

-- The fields that change, and the lines that it has logged.
pub record Spawner : Type 0 where
  pub next_attempt : ℕ
  pub ladder_idx : ℕ
  pub had_session : Bool
  pub had_watcher : Bool
  pub last_err_log : Text
  pub logged : List Text

-- `NewSpawner`
abbrev pub new_spawner : Spawner
new_spawner = record {
  next_attempt = 0;
  ladder_idx = 0;
  had_session = false;
  had_watcher = false;
  last_err_log = [];
  logged = [];
}

-- `noConsoleSession`
abbrev pub no_console_session : ℕ
no_console_session = 0xFFFFFFFF

-- `spawnLadder`
abbrev pub spawn_ladder : List ℕ
spawn_ladder = 1 ∷ 5 ∷ 30 ∷ []

-- What `QueryToken` and `TokenUser` answer: an error of either, or the user of the session.
pub data User : Type 0 where
  no_token no_user user : Text → User

-- What one reconciliation finds, with the error of the launch, if it comes to that.
pub record Seen : Type 0 where
  pub console : ℕ
  pub found : User
  pub now : ℕ
  pub launch_error : Option Text

-- `log.Printf`
abbrev pub log_line : Text → Spawner → Spawner
log_line line s = record s { logged = s.logged ++ line ∷ [] }

-- `logChanged`
abbrev pub log_changed : Text → Spawner → Spawner
log_changed line s =
    if text_eq line s.last_err_log
    then s
    else record s { last_err_log = line; logged = s.logged ++ line ∷ [] }

-- `consumeLadder`; `none` for an index that is out of range.
unfoldable pub consume_ladder : ℕ → Spawner → Option Spawner
consume_ladder now s = elim (get_elem? spawn_ladder s.ladder_idx) [
  | none ↦ none
  | some d ↦ some (record s {
    next_attempt = now + d;
    ladder_idx =
        if ltb s.ladder_idx (length spawn_ladder - 1) then s.ladder_idx + 1 else s.ladder_idx;
  })
]

-- The first part of `reconcile`, where there is no session.
abbrev pub without_session : Spawner → Spawner
without_session s =
    if s.had_session
    then log_line (codes "spawner: console session gone") (record s { had_session = false })
    else log_changed (codes "spawner: no console session (waiting for logon)") s

abbrev pub with_session : ℕ → Spawner → Spawner
with_session sid s =
    if s.had_session
    then s
    else log_line
        (concat (codes "spawner: console session appeared (sid=" ∷ show sid ∷ codes ")" ∷ []))
        (record s { had_session = true })

-- The transitions of the watcher, which are logged.
abbrev pub with_watcher : Text → Bool → Spawner → Spawner
with_watcher sid_str connected s =
    if connected
    then if s.had_watcher
      then s
      else log_line (concat (codes "spawner: watcher attached (user " ∷ sid_str ∷ codes ")" ∷ []))
          (record s { had_watcher = true })
    else if s.had_watcher
    then log_line (codes "spawner: watcher gone (respawning)") (record s { had_watcher = false })
    else s

-- The line about a launch.
abbrev pub launch_logged : ℕ → Text → Option Text → Spawner → Spawner
launch_logged sid sid_str none s =
    log_line
      (concat (
        codes "spawner: launched watcher for session "
        ∷ show sid
        ∷ codes " (user "
        ∷ sid_str
        ∷ codes ")"
        ∷ []))
      s
launch_logged sid sid_str (some e) s =
    log_changed (concat (codes "spawner: launch watcher: " ∷ e ∷ [])) s

-- What a reconciliation leaves: whether it called `Spawn`, the pipe, and the spawner.
pub record Reconciled : Type 0 where
  pub launched : Bool
  pub pipe : Pipe
  pub spawner : Spawner

abbrev pub finished : Bool → Pipe → Option Spawner → Option Reconciled
finished b p none = none
finished b p (some s) = some (record { launched = b; pipe = p; spawner = s })

-- The last part: nothing more with a watcher, or before the next attempt; otherwise a launch.
unfoldable pub launch_if_due : Seen → Text → Pipe → Spawner → Option Reconciled
unfolding consume_ladder
launch_if_due seen sid_str p s =
    let u = launch_logged seen.console sid_str seen.launch_error s in
    if p.is_connected
    then finished false p (some (record s { ladder_idx = 0; next_attempt = 0 }))
    else if ltb seen.now s.next_attempt
    then finished false p (some s)
    else finished true p (consume_ladder seen.now u)

-- The part for a session whose user may connect to the pipe.
unfoldable pub reconcile_user : Seen → Text → Pipe → Spawner → Option Reconciled
unfolding launch_if_due
reconcile_user seen sid_str p s =
    launch_if_due seen sid_str p (with_watcher sid_str p.is_connected s)

-- What follows the answers of `QueryToken` and `TokenUser`.
unfoldable pub reconcile_found : Seen → User → Pipe → Spawner → Option Reconciled
unfolding reconcile_user ensure_sddl consume_ladder
reconcile_found seen (no_token e) p s =
    let line =
      concat
        (codes "spawner: query token for session " ∷ show seen.console ∷ codes ": " ∷ e ∷ []) in
    finished false p (consume_ladder seen.now (log_changed line s))
reconcile_found seen (no_user e) p s =
    finished false p
      (consume_ladder seen.now (log_changed (concat (codes "spawner: token user: " ∷ e ∷ [])) s))
reconcile_found seen (user sid_str) p s = reconcile_user seen sid_str (ensure_sddl sid_str p) s

-- `reconcile`
unfoldable pub reconcile : Seen → Pipe → Spawner → Option Reconciled
unfolding reconcile_found
reconcile seen p s =
    if seen.console == no_console_session || seen.console == 0
    then finished false p (some (without_session s))
    else reconcile_found seen seen.found p (with_session seen.console s)
