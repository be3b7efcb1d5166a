-- ===== src/Agent/Heartbeat/Dwell.antt =====
-- The heartbeats of internal/agent/heartbeat.go under the dwell model of internal/server/query.go:
-- the server counts the time that was observed, although few observations become heartbeats.
use screwlogger.Base.{
  ℕ, ◌+◌, ◌-◌, ◌≤◌, ◌≡◌, refl, ap, ◌∙◌, inl, inr, Bool, true, false, Option, none, some, List, [],
  ◌∷◌, map, arith, if◌then◌else◌, Bool-cases, Text, text_eq_refl,
}
use screwlogger.Server.Store.{Sent}
use screwlogger.Server.Query.{Heartbeat, lead, secs, dwell_of, seconds_in}
use screwlogger.Agent.Heartbeat.{
  Builder, new_builder, default_keep_alive, same, due, unix, emitted, restarted, observe,
}

-- One poll of the foreground application and of the activity, at a time in nanoseconds.
pub record Poll : Type 0 where
  pub at : ℕ
  pub app : Text
  pub active : Bool

abbrev prepend_beat : Option Sent → List Sent → List Sent
prepend_beat none hs = hs
prepend_beat (some h) hs = h ∷ hs

-- The heartbeats of a series of polls.
unfoldable pub heartbeats : Builder → List Poll → List Sent
heartbeats b [] = []
heartbeats b (x ∷ xs) =
    prepend_beat (observe x.at x.app x.active b).0 (heartbeats (observe x.at x.app x.active b).1 xs)

-- Their rows in the table of a device, with the categories that the agent finds.
abbrev pub row : Text → (Text → Text) → Sent → Heartbeat
row device cat h = record {
  device_id = device;
  ts = h.ts;
  app = h.app;
  category = cat h.app;
  active = h.active;
}

-- The seconds from each poll that found the activity `b` to the next poll, or to the end.
abbrev pub next_at : List Poll → ℕ → ℕ
next_at [] to = to
next_at (x ∷ xs) to = unix x.at

unfoldable pub polled : Bool → List Poll → ℕ → ℕ
polled b [] to = 0
polled b (x ∷ xs) to = (if same b x.active then next_at xs to - unix x.at else 0) + polled b xs to

-- From a time on the polls follow each other, and the end follows them, within fifteen seconds.
abbrev pub IsSteady : ℕ → List Poll → ℕ → Type 0
IsSteady p [] to = (unix p ≤ to) × (to ≤ unix p + 15)
IsSteady p (x ∷ xs) to = (p ≤ x.at) × (x.at ≤ p + default_keep_alive) × IsSteady x.at xs to

pub unix_step :
    (p x : ℕ) → p ≤ x → x ≤ p + default_keep_alive → (unix p ≤ unix x) × (unix x ≤ unix p + 15)
unfolding unix
unix_step p x h k = omega arith

IsSteady-le : (p : ℕ) (xs : List Poll) (to : ℕ) → IsSteady p xs to → unix p ≤ to
IsSteady-le p [] to h = h.0
IsSteady-le p (x ∷ xs) to (h, k, s) = omega (arith, unix_step p x.at h k, IsSteady-le x.at xs to s)

next_at-le : (p : ℕ) (xs : List Poll) (to : ℕ) → IsSteady p xs to → unix p ≤ next_at xs to
next_at-le p [] to h = h.0
next_at-le p (x ∷ xs) to (h, k, s) = (unix_step p x.at h k).0

-- The state after a heartbeat at the time `e`.
abbrev pub beating : ℕ → Text → Bool → Builder
beating e app active = restarted e app active (new_builder default_keep_alive)

-- The dwell of that heartbeat and of those that follow it.
abbrev pub counted : Text → (Text → Text) → Bool → ℕ → Text → Bool → List Poll → ℕ → ℕ
counted device cat b e app active xs to = seconds_in b (
    dwell_of
      (row device cat (emitted e app active)
        ∷ map (row device cat) (heartbeats (beating e app active) xs))
      to)

abbrev pub Counted : Text → (Text → Text) → Bool → ℕ → ℕ → Text → Bool → List Poll → ℕ → Type 0
Counted device cat b e p app active xs to =
    counted device cat b e app active xs to
    ≡ (if same b active then next_at xs to - unix e else 0) + polled b xs to

seconds_in-cons :
    (b : Bool) (d : _) (ds : List _)
    → seconds_in b (d ∷ ds) ≡ (if same b d.active then d.secs else 0) + seconds_in b ds
unfolding seconds_in
seconds_in-cons true d ds = refl
seconds_in-cons false d ds = refl

-- A poll that is due begins a new heartbeat; any other leaves no trace.
pub heartbeats_due :
    (e : ℕ) (app : Text) (active : Bool) (x : Poll) (xs : List Poll)
    → due x.at x.app x.active (beating e app active) ≡ true
    → heartbeats (beating e app active) (x ∷ xs)
      ≡ emitted x.at x.app x.active ∷ heartbeats (beating x.at x.app x.active) xs
unfolding heartbeats observe
heartbeats_due e app active x xs d = rw d

pub heartbeats_quiet :
    (e : ℕ) (app : Text) (active : Bool) (x : Poll) (xs : List Poll)
    → due x.at x.app x.active (beating e app active) ≡ false
    → heartbeats (beating e app active) (x ∷ xs) ≡ heartbeats (beating e app active) xs
unfolding heartbeats observe
heartbeats_quiet e app active x xs d = rw d

pub quiet_lem :
    (e : ℕ) (app : Text) (active : Bool) (x : Poll)
    → due x.at x.app x.active (beating e app active) ≡ false
    → (x.at ≤ e + default_keep_alive) × (x.active ≡ active)
unfolding due
quiet_lem e app active x d = ground arith

counted_nil :
    (device : Text) (cat : Text → Text) (b : Bool) (e : ℕ) (app : Text) (active : Bool) (to : ℕ)
    → unix e ≤ to
    → to ≤ unix e + 30
    → counted device cat b e app active [] to ≡ (if same b active then to - unix e else 0)
unfolding heartbeats dwell_of lead secs
counted_nil device cat b e app active to l u =
    seconds_in-cons b _ [] ∙ unfold seconds_in in ground arith

counted_due :
    (device : Text) (cat : Text → Text) (b : Bool) (e : ℕ) (app : Text) (active : Bool) (x : Poll)
    (xs : List Poll) (to : ℕ)
    → due x.at x.app x.active (beating e app active) ≡ true
    → unix x.at ≤ to
    → unix x.at ≤ unix e + 30
    → counted device cat b e app active (x ∷ xs) to
      ≡ (if same b active then unix x.at - unix e else 0)
        + counted device cat b x.at x.app x.active xs to
unfolding dwell_of lead secs
counted_due device cat b e app active x xs to d l u =
    ap
      (λ hs.
        seconds_in b
          (dwell_of (row device cat (emitted e app active) ∷ map (row device cat) hs) to))
      (heartbeats_due e app active x xs d)
    ∙ seconds_in-cons b _ _
    ∙ ground (arith, text_eq_refl device)

pub counted_lem :
    (device : Text) (cat : Text → Text) (b : Bool) (e p : ℕ) (app : Text) (active : Bool)
    (xs : List Poll) (to : ℕ)
    → e ≤ p
    → p ≤ e + default_keep_alive
    → IsSteady p xs to
    → Counted device cat b e p app active xs to
unfolding polled
counted_lem device cat b e p app active [] to h k (l, u) =
    let (m, n) = unix_step e p h k in
    counted_nil device cat b e app active to (omega arith) (omega arith) ∙ omega arith
counted_lem device cat b e p app active (x ∷ xs) to h k (l, u, s) =
    let (m, n) = unix_step e p h k in
    let (q, r) = unix_step p x.at l u in
    let end = IsSteady-le x.at xs to s in
    elim (Bool-cases (due x.at x.app x.active (beating e app active))) [
      | inl d ↦
          counted_due device cat b e app active x xs to d end (omega arith)
          ∙ ap (λ n. (if same b active then unix x.at - unix e else 0) + n)
              (counted_lem device cat b x.at x.at x.app x.active xs to (omega arith) (omega arith)
                s)
      | inr d ↦
          let (near, alike) = quiet_lem e app active x d in
          ap
            (λ hs.
              seconds_in b
                (dwell_of (row device cat (emitted e app active) ∷ map (row device cat) hs) to))
            (heartbeats_quiet e app active x xs d)
          ∙ counted_lem device cat b e x.at app active xs to (omega arith) near s
          ∙ ground (arith, alike, next_at-le x.at xs to s)
    ]
