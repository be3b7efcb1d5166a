-- ===== src/Agent/Categorize.antt =====
-- `Categorize` of internal/agent/categorize.go. `path.Match` is a parameter, with `none` for a pattern
-- that is malformed.
use screwlogger.Base.{
  ◌+◌, ◌≡◌, refl, ap, Bool, false, ◌&&◌, Option, none, some, List, [], ◌∷◌, ◌++◌, arith, leb,
  if◌then◌else◌, Text, codes, text_eq, text_eq_iff,
}

-- `Uncategorized`
abbrev pub uncategorized : Text
uncategorized = codes "Uncategorized"

-- `Rule`
pub record CategoryRule : Type 0 where
  pub pattern : Text
  pub category : Text

-- `lower`, on bytes
unfoldable pub lower : Text → Text
lower [] = []
lower (c ∷ s) = (if leb 65 c && leb c 90 then c + 32 else c) ∷ lower s

-- The first loop of `Categorize`
unfoldable pub exact_match : Text → List CategoryRule → Option Text
unfolding lower
exact_match app [] = none
exact_match app (r ∷ rs) =
    if text_eq (lower r.pattern) app then some r.category else exact_match app rs

abbrev pub is_match : Option Bool → Bool
is_match none = false
is_match (some b) = b

module _ (path_match : Text → Text → Option Bool) where
  -- The second loop
  unfoldable pub glob_match : Text → List CategoryRule → Option Text
  unfolding lower
  glob_match app [] = none
  glob_match app (r ∷ rs) =
      if is_match (path_match (lower r.pattern) app) then some r.category else glob_match app rs

  abbrev pub or_else : Option Text → Option Text → Text
  or_else (some category) o = category
  or_else none (some category) = category
  or_else none none = uncategorized

  -- `Categorize`
  unfoldable pub categorize : Text → List CategoryRule → Text
  unfolding exact_match glob_match
  categorize app rs = or_else (exact_match (lower app) rs) (glob_match (lower app) rs)

lower_lem : (s : Text) → lower (lower s) ≡ lower s
unfolding lower
lower_lem [] = refl
lower_lem (c ∷ s) = ground (arith, lower_lem s)

exact_match-append :
    (app : Text) (rs ts : List CategoryRule) (r : CategoryRule)
    → exact_match app rs ≡ none
    → lower r.pattern ≡ app
    → exact_match app (rs ++ r ∷ ts) ≡ some r.category
unfolding exact_match
exact_match-append app [] ts r e f = ground (arith, f, text_eq_iff (lower r.pattern) app)
exact_match-append app (x ∷ rs) ts r e f = ground (arith, exact_match-append app rs ts r, e, f)

-- A rule with the name of an application, in any case of its letters, decides the category, whatever
-- patterns stand before it or after it, unless a rule before it has that name too.
pub categorize-exact :
    (path_match : Text → Text → Option Bool) (app : Text) (rs ts : List CategoryRule)
    (r : CategoryRule)
    → exact_match (lower app) rs ≡ none
    → lower r.pattern ≡ lower app
    → categorize path_match app (rs ++ r ∷ ts) ≡ r.category
unfolding categorize
categorize-exact path_match app rs ts r e f =
    ap (λ o. or_else path_match o (glob_match path_match (lower app) (rs ++ r ∷ ts)))
      (exact_match-append (lower app) rs ts r e f)
