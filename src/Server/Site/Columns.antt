-- ===== src/Server/Site/Columns.antt =====
-- What the statements of internal/server do to the columns of the primary keys.
use screwlogger.Base.{
  ℕ, ◌≡◌, refl, sym, ap, ◌∙◌, inl, inr, Bool, false, not, ◌||◌, List, [], ◌∷◌, ◌++◌, map, arith,
  Bool-cases, Text, text_eq, text_eq_iff,
}
use mathlib.Core.Path.{subst}
use screwlogger.Server.Store.{
  Device, Beat, has_beat, insert_or_ignore, update, by_id, is_missing, without_device,
  without_beats,
}
use screwlogger.Server.Rules.{RuleRow, upsert_rule, without_rule, recategorized_beats}
use screwlogger.Server.Keys.{ApiKey, key_by_hash, is_none, revoke_api_key_by_prefix}
use screwlogger.Server.Site.Keys.{IsKey, occurs, IsKey-append, remaining, IsKey-remaining}

abbrev pub device_ids : List Device → List Text
device_ids ds = map (λ (d : Device). d.id) ds

abbrev pub beat_ids : List Beat → List Text
beat_ids xs = map (λ (x : Beat). x.id) xs

abbrev pub patterns : List RuleRow → List Text
patterns rs = map (λ (r : RuleRow). r.exe_pattern) rs

abbrev pub key_hashes : List ApiKey → List Text
key_hashes ks = map (λ (k : ApiKey). k.key_hash) ks

pub device_ids-update :
    (id : Text) (f : Device → Device) (ds : List Device)
    → ((d : Device) → (f d).id ≡ d.id)
    → device_ids (update id f ds) ≡ device_ids ds
unfolding update
device_ids-update id f [] same = refl
device_ids-update id f (d ∷ ds) same = ground (arith, device_ids-update id f ds same, same d)

without_device-remaining :
    (id : Text) (ds : List Device)
    → without_device id ds ≡ remaining (λ d. d.id) (λ d. text_eq d.id id) ds
unfolding without_device
without_device-remaining id [] = refl
without_device-remaining id (d ∷ ds) = ground (arith, without_device-remaining id ds)

without_beats-remaining :
    (id : Text) (xs : List Beat)
    → without_beats id xs ≡ remaining (λ x. x.id) (λ x. text_eq x.device_id id) xs
unfolding without_beats
without_beats-remaining id [] = refl
without_beats-remaining id (x ∷ xs) = ground (arith, without_beats-remaining id xs)

without_rule-remaining :
    (p : Text) (rs : List RuleRow)
    → without_rule p rs ≡ remaining (λ r. r.exe_pattern) (λ r. text_eq r.exe_pattern p) rs
unfolding without_rule
without_rule-remaining p [] = refl
without_rule-remaining p (r ∷ rs) = ground (arith, without_rule-remaining p rs)

pub without_device-IsKey :
    (id : Text) (ds : List Device)
    → IsKey (device_ids ds)
    → IsKey (device_ids (without_device id ds))
without_device-IsKey id ds k =
    subst (λ es. IsKey (device_ids es)) (sym (without_device-remaining id ds))
      (IsKey-remaining (λ d. d.id) (λ d. text_eq d.id id) ds k)

pub without_beats-IsKey :
    (id : Text) (xs : List Beat) → IsKey (beat_ids xs) → IsKey (beat_ids (without_beats id xs))
without_beats-IsKey id xs k =
    subst (λ ys. IsKey (beat_ids ys)) (sym (without_beats-remaining id xs))
      (IsKey-remaining (λ x. x.id) (λ x. text_eq x.device_id id) xs k)

pub without_rule-IsKey :
    (p : Text) (rs : List RuleRow) → IsKey (patterns rs) → IsKey (patterns (without_rule p rs))
without_rule-IsKey p rs k =
    subst (λ qs. IsKey (patterns qs)) (sym (without_rule-remaining p rs))
      (IsKey-remaining (λ r. r.exe_pattern) (λ r. text_eq r.exe_pattern p) rs k)

occurs-has_beat : (id : Text) (xs : List Beat) → occurs id (beat_ids xs) ≡ has_beat id xs
unfolding occurs has_beat
occurs-has_beat id [] = refl
occurs-has_beat id (x ∷ xs) = ap (text_eq x.id id ||◌) (occurs-has_beat id xs)

beat_ids-append : (xs ys : List Beat) → beat_ids (xs ++ ys) ≡ beat_ids xs ++ beat_ids ys
beat_ids-append [] ys = refl
beat_ids-append (x ∷ xs) ys = ap (x.id ∷◌) (beat_ids-append xs ys)

pub insert_or_ignore-IsKey :
    (xs table : List Beat) → IsKey (beat_ids table) → IsKey (beat_ids (insert_or_ignore xs table).1)
unfolding insert_or_ignore
insert_or_ignore-IsKey [] table k = k
insert_or_ignore-IsKey (x ∷ xs) table k = elim (Bool-cases (has_beat x.id table)) [
  | inl e ↦ rw (e, insert_or_ignore) (insert_or_ignore-IsKey xs table k)
  | inr e ↦
      rw (e, insert_or_ignore)
        (insert_or_ignore-IsKey xs (table ++ x ∷ []) (
          subst IsKey (sym (beat_ids-append table (x ∷ [])))
            (IsKey-append x.id (beat_ids table) (occurs-has_beat x.id table ∙ e) k)))
]

pub occurs-by_id :
    (id : Text) (ds : List Device) → occurs id (device_ids ds) ≡ not (is_missing (by_id id ds))
unfolding occurs by_id
occurs-by_id id [] = refl
occurs-by_id id (d ∷ ds) = ground (arith, occurs-by_id id ds)

pub occurs-key_by_hash :
    (h : Text) (ks : List ApiKey) → occurs h (key_hashes ks) ≡ not (is_none (key_by_hash h ks))
unfolding occurs key_by_hash
occurs-key_by_hash h [] = refl
occurs-key_by_hash h (k ∷ ks) = ground (arith, occurs-key_by_hash h ks)

occurs-upsert_rule :
    (now : ℕ) (t p category : Text) (rs : List RuleRow)
    → text_eq p t ≡ false
    → occurs t (patterns rs) ≡ false
    → occurs t (patterns (upsert_rule now p category rs)) ≡ false
unfolding occurs upsert_rule
occurs-upsert_rule now t p category [] e h = ground (arith, e)
occurs-upsert_rule now t p category (r ∷ rs) e h =
    ground (arith, occurs-upsert_rule now t p category rs e, h)

pub upsert_rule-IsKey :
    (now : ℕ) (p category : Text) (rs : List RuleRow)
    → IsKey (patterns rs)
    → IsKey (patterns (upsert_rule now p category rs))
unfolding upsert_rule occurs
upsert_rule-IsKey now p category [] k = (refl, tt)
upsert_rule-IsKey now p category (r ∷ rs) (h, k) = elim (Bool-cases (text_eq r.exe_pattern p)) [
  | inl e ↦ rw (e, upsert_rule) (h, k)
  | inr e ↦
      rw (e, upsert_rule)
        (
          occurs-upsert_rule now r.exe_pattern p category rs
              (ground (arith, text_eq_iff r.exe_pattern p, text_eq_iff p r.exe_pattern, e)) h,
          upsert_rule-IsKey now p category rs k,
        )
]

pub beat_ids-recategorized_beats :
    (matches : Text → Text → Bool) (p category : Text) (xs : List Beat)
    → beat_ids (recategorized_beats matches p category xs).1 ≡ beat_ids xs
unfolding recategorized_beats
beat_ids-recategorized_beats matches p category [] = refl
beat_ids-recategorized_beats matches p category (x ∷ xs) =
    ground (arith, beat_ids-recategorized_beats matches p category xs)

pub key_hashes-revoke_api_key_by_prefix :
    (now : ℕ) (p : Text) (ks : List ApiKey)
    → key_hashes (revoke_api_key_by_prefix now p ks).1 ≡ key_hashes ks
unfolding revoke_api_key_by_prefix
key_hashes-revoke_api_key_by_prefix now p [] = refl
key_hashes-revoke_api_key_by_prefix now p (k ∷ ks) =
    ground (arith, key_hashes-revoke_api_key_by_prefix now p ks)
