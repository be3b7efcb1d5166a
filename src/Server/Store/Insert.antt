-- ===== src/Server/Store/Insert.antt =====
-- What `InsertHeartbeats` of internal/server/store.go promises: replays count for nothing.
use screwlogger.Base.{
  ℕ, ◌+◌, ◌≡◌, refl, sym, ap, ◌∙◌, inl, inr, true, false, ◌||◌, some, List, [], ◌∷◌, ◌++◌, map,
  arith, Bool-cases, length, length-append, All, Text, text_eq_iff,
}
use screwlogger.Server.Store.{
  Beat, Sent, Store, has_beat, insert_or_ignore, insert_heartbeats, beat_of, update, ok,
}
use mathlib.Core.Path.{subst}

has_beat-append :
    (id : Text) (xs ys : List Beat) → has_beat id (xs ++ ys) ≡ (has_beat id xs || has_beat id ys)
unfolding has_beat
has_beat-append id [] ys = refl
has_beat-append id (x ∷ xs) ys = ground (arith, has_beat-append id xs ys)

-- A key that is taken stays taken.
pub has_beat-insert_or_ignore :
    (id : Text) (xs table : List Beat)
    → has_beat id table ≡ true
    → has_beat id (insert_or_ignore xs table).1 ≡ true
unfolding insert_or_ignore
has_beat-insert_or_ignore id [] table h = h
has_beat-insert_or_ignore id (x ∷ xs) table h = ground (
  arith,
  has_beat-insert_or_ignore id xs table h,
  has_beat-insert_or_ignore id xs (table ++ x ∷ []),
  has_beat-append id table (x ∷ []),
)

-- All keys of a batch are taken in a table.
abbrev pub Taken : List Sent → List Beat → Type 0
Taken hbs table = All (λ h. has_beat h.id table ≡ true) hbs

has_beat-own :
    (h : Sent) (x : Beat) (table : List Beat) → x.id ≡ h.id → has_beat h.id (table ++ x ∷ []) ≡ true
unfolding has_beat
has_beat-own h x table e =
    ground (arith, has_beat-append h.id table (x ∷ []), text_eq_iff x.id h.id)

insert_or_ignore_ignored :
    (x : Beat) (xs table : List Beat)
    → has_beat x.id table ≡ true
    → insert_or_ignore (x ∷ xs) table ≡ insert_or_ignore xs table
unfolding insert_or_ignore
insert_or_ignore_ignored x xs table e = rw e

insert_or_ignore_inserted :
    (x : Beat) (xs table : List Beat)
    → has_beat x.id table ≡ false
    → (insert_or_ignore (x ∷ xs) table).1 ≡ (insert_or_ignore xs (table ++ x ∷ [])).1
unfolding insert_or_ignore
insert_or_ignore_inserted x xs table e = rw e

pub insert_or_ignore-Taken :
    (device : Text) (sent_at now : ℕ) (hbs : List Sent) (table : List Beat)
    → Taken hbs (insert_or_ignore (map (beat_of device sent_at now) hbs) table).1
insert_or_ignore-Taken device sent_at now [] table = tt
insert_or_ignore-Taken device sent_at now (h ∷ hbs) table =
    let x = beat_of device sent_at now h in
    let xs = map (beat_of device sent_at now) hbs in
    elim (Bool-cases (has_beat h.id table)) [
      | inl e ↦
          subst (Taken (h ∷ hbs)) (ap (λ r. r.1) (sym (insert_or_ignore_ignored x xs table e))) (
            has_beat-insert_or_ignore h.id xs table e,
            insert_or_ignore-Taken device sent_at now hbs table,
          )
      | inr e ↦ subst (Taken (h ∷ hbs)) (sym (insert_or_ignore_inserted x xs table e)) (
        has_beat-insert_or_ignore h.id xs (table ++ x ∷ []) (has_beat-own h x table refl),
        insert_or_ignore-Taken device sent_at now hbs (table ++ x ∷ []),
      )
    ]

insert_or_ignore_replayed :
    (device : Text) (sent_at now : ℕ) (hbs : List Sent) (table : List Beat)
    → Taken hbs table
    → insert_or_ignore (map (beat_of device sent_at now) hbs) table ≡ (0, table)
insert_or_ignore_replayed device sent_at now [] table t = unfold insert_or_ignore in refl
insert_or_ignore_replayed device sent_at now (h ∷ hbs) table (e, t) =
    insert_or_ignore_ignored (beat_of device sent_at now h) (map (beat_of device sent_at now) hbs)
      table e
    ∙ insert_or_ignore_replayed device sent_at now hbs table t

-- What a successful insertion has done.
pub insert_heartbeats_done :
    (now sent_at : ℕ) (device : Text) (hbs : List Sent) (s : Store) (n : ℕ) (t : Store)
    → insert_heartbeats now device sent_at hbs s ≡ ok (n, t)
    → (n ≡ (insert_or_ignore (map (beat_of device sent_at now) hbs) s.heartbeats).0)
      × (t.heartbeats ≡ (insert_or_ignore (map (beat_of device sent_at now) hbs) s.heartbeats).1)
unfolding insert_heartbeats
insert_heartbeats_done now sent_at device hbs s n t e = ground (arith, e)

insert_heartbeats_none :
    (now sent_at : ℕ) (device : Text) (hbs : List Sent) (s : Store)
    → insert_or_ignore (map (beat_of device sent_at now) hbs) s.heartbeats ≡ (0, s.heartbeats)
    → (t : Store) × (insert_heartbeats now device sent_at hbs s ≡ ok (0, t))
      × (t.heartbeats ≡ s.heartbeats)
unfolding insert_heartbeats
insert_heartbeats_none now sent_at device hbs s e = (
  record {
    devices = update device (λ d. record d { last_seen = some now }) s.devices;
    heartbeats = s.heartbeats;
  },
  rw e,
  refl,
)

-- A batch that has been stored can be sent again, at any time and for any device: it is accepted with
-- the count 0 and changes no heartbeat.
insert_heartbeats-replay :
    (now sent_at later again : ℕ) (device other : Text) (hbs : List Sent) (s : Store) (n : ℕ)
    (t : Store)
    → insert_heartbeats now device sent_at hbs s ≡ ok (n, t)
    → (u : Store) × (insert_heartbeats later other again hbs t ≡ ok (0, u))
      × (u.heartbeats ≡ t.heartbeats)
insert_heartbeats-replay now sent_at later again device other hbs s n t e =
    insert_heartbeats_none later again other hbs t (
      insert_or_ignore_replayed other again later hbs t.heartbeats (
        subst (Taken hbs) (sym (insert_heartbeats_done now sent_at device hbs s n t e).1)
          (insert_or_ignore-Taken device sent_at now hbs s.heartbeats)))

length-insert_or_ignore :
    (xs table : List Beat)
    → length (insert_or_ignore xs table).1 ≡ length table + (insert_or_ignore xs table).0
unfolding insert_or_ignore
length-insert_or_ignore [] table = omega arith
length-insert_or_ignore (x ∷ xs) table = ground (
  arith,
  length-insert_or_ignore xs table,
  length-insert_or_ignore xs (table ++ x ∷ []),
  length-append table (x ∷ []),
)

-- The count of an insertion is the number of heartbeats that the store has gained.
length-insert_heartbeats :
    (now sent_at : ℕ) (device : Text) (hbs : List Sent) (s : Store) (n : ℕ) (t : Store)
    → insert_heartbeats now device sent_at hbs s ≡ ok (n, t)
    → length t.heartbeats ≡ length s.heartbeats + n
length-insert_heartbeats now sent_at device hbs s n t e =
    let (a, b) = insert_heartbeats_done now sent_at device hbs s n t e in
    rw (a, b) (length-insert_or_ignore (map (beat_of device sent_at now) hbs) s.heartbeats)

-- The count of an insertion is the number of heartbeats that the store has gained. A batch that has
-- been stored can be sent again, at any time and for any device: it is accepted with the count 0 and
-- changes no heartbeat.
pub insert_heartbeats_lem :
    (now sent_at later again : ℕ) (device other : Text) (hbs : List Sent) (s : Store) (n : ℕ)
    (t : Store)
    → insert_heartbeats now device sent_at hbs s ≡ ok (n, t)
    → (length t.heartbeats ≡ length s.heartbeats + n)
      × (u : Store) × (insert_heartbeats later other again hbs t ≡ ok (0, u))
      × (u.heartbeats ≡ t.heartbeats)
insert_heartbeats_lem now sent_at later again device other hbs s n t e =
    let (u, a, b) = insert_heartbeats-replay now sent_at later again device other hbs s n t e in
    (length-insert_heartbeats now sent_at device hbs s n t e, u, a, b)
