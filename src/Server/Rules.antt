-- ===== src/Server/Rules.antt =====
-- The table `rules` of internal/server/rules.go. The comparison of an application with a pattern,
-- `lower(app) GLOB lower(?)` of SQLite, is a parameter.
use screwlogger.Base.{
  ℕ, ◌+◌, Bool, true, false, List, [], ◌∷◌, ltb, ◌==◌, if◌then◌else◌, Text, text_eq,
}
use screwlogger.Server.Store.{Beat, Store}

-- A row of the table, and `RuleRow`.
pub record RuleRow : Type 0 where
  pub exe_pattern : Text
  pub category : Text
  pub updated_at : ℕ

-- `UpsertRule`
unfoldable pub upsert_rule : ℕ → Text → Text → List RuleRow → List RuleRow
upsert_rule now pattern category [] =
    record { exe_pattern = pattern; category = category; updated_at = now } ∷ []
upsert_rule now pattern category (r ∷ rs) =
    if text_eq r.exe_pattern pattern
    then record r { category = category; updated_at = now } ∷ rs
    else r ∷ upsert_rule now pattern category rs

-- `DeleteRule`
unfoldable pub without_rule : Text → List RuleRow → List RuleRow
without_rule pattern [] = []
without_rule pattern (r ∷ rs) =
    if text_eq r.exe_pattern pattern then without_rule pattern rs else r ∷ without_rule pattern rs

-- The order of texts by their bytes.
unfoldable pub text_leb : Text → Text → Bool
text_leb [] t = true
text_leb (c ∷ s) [] = false
text_leb (c ∷ s) (d ∷ t) = if c == d then text_leb s t else ltb c d

unfoldable pub insert_rule : RuleRow → List RuleRow → List RuleRow
unfolding text_leb
insert_rule r [] = r ∷ []
insert_rule r (x ∷ xs) =
    if text_leb r.exe_pattern x.exe_pattern then r ∷ x ∷ xs else x ∷ insert_rule r xs

-- `ListRules`
unfoldable pub list_rules : List RuleRow → List RuleRow
unfolding insert_rule
list_rules [] = []
list_rules (r ∷ rs) = insert_rule r (list_rules rs)

module _ (matches : Text → Text → Bool) where
  unfoldable pub recategorized_beats : Text → Text → List Beat → ℕ × List Beat
  recategorized_beats pattern category [] = (0, [])
  recategorized_beats pattern category (x ∷ xs) =
      let rest = recategorized_beats pattern category xs in
      if matches x.app pattern
      then (rest.0 + 1, record x { category = category } ∷ rest.1)
      else (rest.0, x ∷ rest.1)

  -- `Recategorize`
  unfoldable pub recategorize : Text → Text → Store → ℕ × Store
  unfolding recategorized_beats
  recategorize pattern category s =
      let r = recategorized_beats pattern category s.heartbeats in
      (r.0, record s { heartbeats = r.1 })
