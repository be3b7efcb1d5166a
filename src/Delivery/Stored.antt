-- ===== src/Delivery/Stored.antt =====
-- No heartbeat is lost on its way: what the agent no longer holds, the server has.
use screwlogger.Server.Store.Delete.{beats_of, delete_found-ok}
use screwlogger.Delivery.{
  removed_with, Elsewhere, ingested, enrolled, revoked_one, renamed_one, categorized,
}
use screwlogger.Server.Store.{
  delete_device, without_beats, by_id, ok, Beat, revoke_device, Sent, Store, has_beat, beat_of,
}
use screwlogger.Server.Store.Orphans.{renamed_store}
use screwlogger.Server.Devices.{create_device}
use screwlogger.Server.Rules.{recategorize, recategorized_beats}
use screwlogger.Base.{
  ℕ, ◌≡◌, refl, sym, ap, ◌∙◌, ◌⊎◌, inl, inr, Bool, true, some, List, [], ◌∷◌, map, arith,
  Bool-cases, IsIn, All-mono, All, Text, text_eq,
}
use mathlib.Core.Path.{subst}
use screwlogger.Server.Store.Insert.{
  has_beat-insert_or_ignore, insert_or_ignore-Taken, insert_heartbeats_done,
}
use screwlogger.Server.Ingest.{
  IngestBatch, IngestRequest, Reply, refused, accepted, status_of, ingest,
}
use screwlogger.Server.Ingest.Refused.{Outcome, ingest-Outcome}

-- A row with the identifier of the heartbeat is in the table.
abbrev pub IsStored : Store → Sent → Type 0
IsStored s h = has_beat h.id s.heartbeats ≡ true

-- Ingestion keeps what is stored.
pub ingest-keeps :
    (hash_token : Text → Text) (now : ℕ) (r : IngestRequest) (s : Store) (h : Sent)
    → IsStored s h
    → IsStored (ingest hash_token now r s).1 h
ingest-keeps hash_token now r s h k =
    go (ingest hash_token now r s) (ingest-Outcome hash_token now r s)
  where
    go : (o : Reply × Store) → Outcome hash_token now r s o → IsStored o.1 h
    go (refused code message, t) (ne, e) = rw e k
    go (accepted n, t) (token, id, batch, a, b, c, v, i) =
        rw (insert_heartbeats_done now batch.device_sent_at id batch.heartbeats s n t i).1 (
          has_beat-insert_or_ignore h.id
            (map (beat_of id batch.device_sent_at now) batch.heartbeats) s.heartbeats k)

-- A request that is answered with the status 200 had a batch.
pub ingest-body :
    (hash_token : Text → Text) (now : ℕ) (r : IngestRequest) (s : Store)
    → status_of (ingest hash_token now r s).0 ≡ 200
    → (batch : IngestBatch) × (r.body ≡ some batch)
ingest-body hash_token now r s u =
    go (ingest hash_token now r s) (ingest-Outcome hash_token now r s) u
  where
    go :
        (o : Reply × Store)
        → Outcome hash_token now r s o
        → status_of o.0 ≡ 200
        → (batch : IngestBatch) × (r.body ≡ some batch)
    go (refused code message, t) (ne, e) u = absurd (ne u)
    go (accepted n, t) (token, id, batch, a, b, c, v, i) u = (batch, c)

-- A batch that is answered with the status 200 is stored.
pub ingest-stores :
    (hash_token : Text → Text) (now : ℕ) (r : IngestRequest) (s : Store) (batch : IngestBatch)
    → r.body ≡ some batch
    → status_of (ingest hash_token now r s).0 ≡ 200
    → All (IsStored (ingest hash_token now r s).1) batch.heartbeats
ingest-stores hash_token now r s batch b u =
    go (ingest hash_token now r s) (ingest-Outcome hash_token now r s) u
  where
    go :
        (o : Reply × Store)
        → Outcome hash_token now r s o
        → status_of o.0 ≡ 200
        → All (IsStored o.1) batch.heartbeats
    go (refused code message, t) (ne, e) u = absurd (ne u)
    go (accepted n, t) (token, id, found, a, d, c, v, i) u =
        let same : found ≡ batch = cc (b, c) in
        subst (λ (x : IngestBatch). All (IsStored t) x.heartbeats) same
          (subst (λ table. All (λ h. has_beat h.id table ≡ true) found.heartbeats)
            (sym (insert_heartbeats_done now found.device_sent_at id found.heartbeats s n t i).1)
            (insert_or_ignore-Taken id found.device_sent_at now found.heartbeats s.heartbeats))

has_beat-recategorized_beats :
    (matches : Text → Text → Bool) (pattern category id : Text) (xs : List Beat)
    → has_beat id (recategorized_beats matches pattern category xs).1 ≡ has_beat id xs
unfolding has_beat recategorized_beats
has_beat-recategorized_beats matches pattern category id [] = refl
has_beat-recategorized_beats matches pattern category id (x ∷ xs) =
    ground (arith, has_beat-recategorized_beats matches pattern category id xs)

create_device-heartbeats :
    (hash_token : Text → Text) (now : ℕ) (id random name secret : Text) (s t : Store)
    → create_device hash_token now id random name s ≡ some (secret, t)
    → t.heartbeats ≡ s.heartbeats
unfolding create_device
create_device-heartbeats hash_token now id random name secret s t e = ground (arith, e)

-- So does every other change of the store that may happen in between.
pub Elsewhere-keeps :
    (hash_token : Text → Text) (s t : Store) (h : Sent)
    → Elsewhere hash_token s t
    → IsStored s h
    → IsStored t h
unfolding revoke_device recategorize
Elsewhere-keeps hash_token s t h (ingested now r) k = ingest-keeps hash_token now r s h k
Elsewhere-keeps hash_token s t h (enrolled now id random name secret u e) k =
    ap (has_beat h.id) (create_device-heartbeats hash_token now id random name secret s u e) ∙ k
Elsewhere-keeps hash_token s t h (revoked_one now id) k = k
Elsewhere-keeps hash_token s t h (renamed_one id name u e) k =
    ap (λ (v : Store). has_beat h.id v.heartbeats) (renamed_store id name s u e) ∙ k
Elsewhere-keeps hash_token s t h (categorized matches pattern category) k =
    has_beat-recategorized_beats matches pattern category h.id s.heartbeats ∙ k

has_beat-without_beats :
    (id device : Text) (xs : List Beat)
    → has_beat id xs ≡ true
    → (has_beat id (without_beats device xs) ≡ true) ⊎ (has_beat id (beats_of device xs) ≡ true)
unfolding has_beat without_beats beats_of
has_beat-without_beats id device [] e = absurd (ground (arith, e))
has_beat-without_beats id device (x ∷ xs) e = elim (Bool-cases (text_eq x.id id)) [
  | inl f ↦ elim (Bool-cases (text_eq x.device_id device)) [
    | inl g ↦ inr (ground (arith, f, g))
    | inr g ↦ inl (ground (arith, f, g))
  ]
  | inr f ↦ ground (arith, f, has_beat-without_beats id device xs (ground (arith, e, f)))
]

-- A deletion keeps every heartbeat but for those whose rows are those of the device.
pub delete_device-keeps :
    (id : Text) (s t : Store) (h : Sent)
    → delete_device id s ≡ ok t
    → IsStored s h
    → IsStored t h ⊎ (has_beat h.id (beats_of id s.heartbeats) ≡ true)
unfolding delete_device
delete_device-keeps id s t h e k = elim (has_beat-without_beats h.id id s.heartbeats k) [
  | inl i ↦
      inl (subst (λ u. IsStored u h) (sym (delete_found-ok id (by_id id s.devices) s t e).1) i)
  | inr i ↦ inr i
]

pub IsIn-removed_with :
    (id : Text) (s : Store) (h : Sent) (log : List Sent)
    → has_beat h.id (beats_of id s.heartbeats) ≡ true
    → IsIn h log
    → IsIn h (removed_with id s log)
IsIn-removed_with id s h [] e k = absurd k
IsIn-removed_with id s h (x ∷ log) e (inl same) =
    let f : has_beat x.id (beats_of id s.heartbeats) ≡ true =
      ap (λ (y : Sent). has_beat y.id (beats_of id s.heartbeats)) same ∙ e in
    rw f (inl same)
IsIn-removed_with id s h (x ∷ log) e (inr k) =
    elim (Bool-cases (has_beat x.id (beats_of id s.heartbeats))) [
      | inl f ↦ rw f (inr (IsIn-removed_with id s h log e k))
      | inr f ↦ rw f (IsIn-removed_with id s h log e k)
    ]

-- Every entry of a list is in it.
pub All-own : (xs : List Sent) → All (λ x. IsIn x xs) xs
All-own [] = tt
All-own (x ∷ xs) =
    (inl refl, All-mono (λ y. IsIn y xs) (λ y. IsIn y (x ∷ xs)) xs (λ y i. inr i) (All-own xs))

pub All-and : (P Q : Sent → Type 0) (xs : List Sent) → All P xs → All Q xs → All (λ x. P x × Q x) xs
All-and P Q [] h k = tt
All-and P Q (x ∷ xs) (p, h) (q, k) = ((p, q), All-and P Q xs h k)
