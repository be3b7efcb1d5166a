-- ===== src/Server/QueryApi/Params.antt =====
-- What the parameters of a query of internal/server/query_api.go ask for, and how the handlers read
-- them.
use screwlogger.Base.{
  ℕ, ◌≤◌, ◌<◌, ◌≡◌, refl, sym, ◌∙◌, ◌≢◌, ◌⊎◌, inl, inr, true, not, ◌&&◌, ◌||◌, Option, none, some,
  [], ◌∷◌, arith, ltb, Bool-cases, Text, codes, text_eq, text_eq_iff, text_eq_refl, ℤ, pos, negsuc,
  pos_part,
}
use screwlogger.Server.Query.{clamp_limit}
use screwlogger.Server.Sessions.{HttpResult, failed, succeeded}
use screwlogger.Server.QueryApi.{
  int_param, window_of, Params, or_category, parse_window, checked_limit, limit_param,
}

module _ (parse_int : Text → Option ℤ) (now : ℕ) where
  -- The limit that a parameter asks for: 1000 if it is missing.
  abbrev pub IsAskedLimit : Text → ℕ → Type 0
  IsAskedLimit v limit = ((v ≡ []) × (limit ≡ 1000)) ⊎ ((v ≢ []) × (parse_int v ≡ some (pos limit)))

  abbrev pub IsLimit : Text → ℕ → Type 0
  IsLimit v limit = (0 < limit) × (limit ≤ 10000) × IsAskedLimit v limit

  -- The bound of a window that a parameter asks for, or a default if it is missing.
  abbrev pub IsBound : Text → ℕ → ℕ → Type 0
  IsBound v default n =
      ((v ≡ []) × (n ≡ default)) ⊎ ((v ≢ []) × (a : ℤ) × (parse_int v ≡ some a) × (n ≡ pos_part a))

  abbrev pub IsNoNumber : Text → Type 0
  IsNoNumber v = (v ≢ []) × (parse_int v ≡ none)

  -- The window that the parameters name, or what is wrong with them.
  abbrev pub IsWindow : Params → Option (ℕ × ℕ) → Type 0
  IsWindow q none = IsNoNumber (q (codes "from")) ⊎ IsNoNumber (q (codes "to"))
  IsWindow q (some (from, to)) = IsBound (q (codes "from")) 0 from × IsBound (q (codes "to")) now to

  -- The grouping that a parameter asks for.
  abbrev pub IsGrouping : Text → Text → Type 0
  IsGrouping v group_by = ((v ≡ []) × (group_by ≡ codes "category")) ⊎ ((v ≢ []) × (group_by ≡ v))

  -- What `intParam` gives for a bound.
  abbrev IsParam : Text → ℕ → Option ℤ → Type 0
  IsParam v default none = IsNoNumber v
  IsParam v default (some a) = IsBound v default (pos_part a)

  int_param-IsParam :
      (v : Text) (default : ℕ) → IsParam v default (int_param parse_int v (pos default))
  unfolding int_param
  int_param-IsParam [] default = inl (refl, refl)
  int_param-IsParam (c ∷ v) default = go (parse_int (c ∷ v)) refl
    where
      go : (o : Option ℤ) → parse_int (c ∷ v) ≡ o → IsParam (c ∷ v) default o
      go none e = ((λ f. cc f), e)
      go (some a) e = inr ((λ f. cc f), a, e, refl)

  window_of-IsWindow :
      (q : Params) (a b : Option ℤ)
      → IsParam (q (codes "from")) 0 a
      → IsParam (q (codes "to")) now b
      → IsWindow q (window_of parse_int a b)
  window_of-IsWindow q none b h k = inl h
  window_of-IsWindow q (some a) none h k = inr k
  window_of-IsWindow q (some a) (some b) h k = (h, k)

  pub parse_window-IsWindow : (q : Params) → IsWindow q (parse_window parse_int now q)
  unfolding parse_window
  parse_window-IsWindow q =
      window_of-IsWindow q _ _ (int_param-IsParam (q (codes "from")) 0)
        (int_param-IsParam (q (codes "to")) now)

  pub or_category-IsGrouping : (v : Text) → IsGrouping v (or_category v)
  or_category-IsGrouping [] = inl (refl, refl)
  or_category-IsGrouping (c ∷ v) = inr ((λ e. cc e), refl)

  pub other_grouping :
      (v : Text)
      → (not (text_eq (or_category v) (codes "category"))
          && not (text_eq (or_category v) (codes "app")))
        ≡ true
      → (v ≢ []) × (v ≢ codes "category") × (v ≢ codes "app")
  other_grouping [] e = absurd (ground (arith, e, text_eq_refl (codes "category")))
  other_grouping (c ∷ v) e = (
    (λ f. cc f),
    ground (arith, e, text_eq_iff (c ∷ v) (codes "category")),
    ground (arith, e, text_eq_iff (c ∷ v) (codes "app")),
  )

  -- The limit that `ListEvents` gets stands for the one that was asked for.
  abbrev pub IsRead : Text → HttpResult ℕ → Type 0
  IsRead v (failed status message) = (status ≡ 400) × ((limit : ℕ) → IsLimit v limit → ⊥)
  IsRead v (succeeded limit) = IsLimit v (clamp_limit limit)

  parsed_limit :
      (v : Text) (limit : ℕ) (o : Option ℤ)
      → v ≢ []
      → parse_int v ≡ o
      → IsLimit v limit
      → o ≡ some (pos limit)
  parsed_limit v limit o ne e (low, high, inl (f, g)) = absurd (ne f)
  parsed_limit v limit o ne e (low, high, inr (f, g)) = sym e ∙ g

  checked_limit-IsRead :
      (v : Text) (o : Option ℤ) → v ≢ [] → parse_int v ≡ o → IsRead v (checked_limit parse_int o)
  checked_limit-IsRead v none ne e =
      (refl, λ limit h. absurd (ground (arith, parsed_limit v limit none ne e h)))
  checked_limit-IsRead v (some (negsuc n)) ne e =
      (refl, λ limit h. absurd (ground (arith, parsed_limit v limit (some (negsuc n)) ne e h)))
  checked_limit-IsRead v (some (pos n)) ne e = elim (Bool-cases (ltb n 1 || ltb 10000 n)) [
    | inl f ↦ rw f (
      refl,
      λ limit h.
          let same : n ≡ limit = ground (arith, parsed_limit v limit (some (pos n)) ne e h) in
          absurd (ground (arith, f, same, h.0, h.1)),
    )
    | inr f ↦
        let same : clamp_limit n ≡ n = ground (arith, f) in
        rw (f, same) (ground (arith, f), ground (arith, f), inr (ne, e))
  ]

  pub limit_param-IsRead : (v : Text) → IsRead v (limit_param parse_int v)
  unfolding limit_param
  limit_param-IsRead [] = (omega arith, omega arith, inl (refl, refl))
  limit_param-IsRead (c ∷ v) = checked_limit-IsRead (c ∷ v) (parse_int (c ∷ v)) (λ e. cc e) refl
