-- ===== src/CostRouter/Choice/Within.antt =====
-- The budget check of `CostRouter.route`, on every branch, and what it means for the request.
use mathlib.Core.Path.{subst}
use ai_chat_bot_v.Base.{
  some-none, ℕ, ◌≡◌, Bool, true, false, none, some, List, [], ◌∷◌, filter, All, if◌then◌else◌,
  arith, Bool-cases, inl, inr, Option-cases,
}
use ai_chat_bot_v.Base.Int.{ℤ, pos, leb_ℤ, ◌≤ℤ◌}
use ai_chat_bot_v.CostRouter.Catalog.{
  ModelConfig, best_quality, Shares, estimate_cost, affordable, find_cheaper_model,
}
use ai_chat_bot_v.CostRouter.Choice.{RoutingDecision, accept, reject, within_budget}
use ai_chat_bot_v.CostRouter.Choice.Best.{
  NoBetter, best_quality_max, best_quality-Holds, Holds, filter-All,
}

module _ (shares : Shares) (available : List ModelConfig) (tokens : ℕ) (budget : ℤ) where
  -- The estimate of a model is within the budget.
  abbrev pub Fits : ModelConfig → Type 0
  Fits m = pos (estimate_cost shares m tokens) ≤ℤ budget

  abbrev fits : ModelConfig → Bool
  fits m = leb_ℤ (pos (estimate_cost shares m tokens)) budget

  not_fits : (m : ModelConfig) → fits m ≡ false → ¬ Fits m
  not_fits m e = ground (arith, e)

  found-Fits :
      (x : ModelConfig) → best_quality (affordable shares budget tokens available) ≡ some x → Fits x
  found-Fits x found =
      let passes : fits x ≡ true = subst (Holds (λ m. fits m ≡ true)) found (
        best_quality-Holds (λ m. fits m ≡ true) (filter fits available)
          (filter-All fits available)) in
      ground (arith, passes)

  -- The three ways in which the check ends.
  pub data Checked (m : ModelConfig) (complexity : ℕ) (d : RoutingDecision) : Type 0 where
    kept :
        Fits m
        → d ≡ accept m (estimate_cost shares m tokens) complexity false budget
        → Checked m complexity d
    downgraded :
        (x : ModelConfig)
        → ¬ Fits m
        → find_cheaper_model shares available budget tokens ≡ some x
        → Fits x
        → All (λ y. Fits y → NoBetter x y) available
        → d ≡ accept x (estimate_cost shares x tokens) complexity true budget
        → Checked m complexity d
    refused :
        ¬ Fits m
        → All (λ y. ¬ Fits y) available
        → d ≡ reject complexity budget
        → Checked m complexity d

  none-Fits :
      (ms : List ModelConfig)
      → best_quality (affordable shares budget tokens ms) ≡ none
      → All (λ y. ¬ Fits y) ms
  unfolding best_quality
  none-Fits [] e = tt
  none-Fits (m ∷ ms) e = elim (Bool-cases (fits m)) [
    | inl yes' ↦ absurd (
        some-none (
          subst (λ b. best_quality (if b then m ∷ filter fits ms else filter fits ms) ≡ none) yes'
            e))
    | inr no' ↦ (
      ground (arith, no'),
      none-Fits ms (
          subst (λ b. best_quality (if b then m ∷ filter fits ms else filter fits ms) ≡ none) no'
            e),
    )
  ]

  All-NoBetter :
      (x : ModelConfig) (ms : List ModelConfig)
      → All (NoBetter x) (filter fits ms)
      → All (λ y. Fits y → NoBetter x y) ms
  All-NoBetter x [] h = tt
  All-NoBetter x (m ∷ ms) h = elim (Bool-cases (fits m)) [
    | inl yes' ↦
        let h' =
          subst (λ b. All (NoBetter x) (if b then m ∷ filter fits ms else filter fits ms)) yes' h in
        ((λ f. h'.0), All-NoBetter x ms h'.1)
    | inr no' ↦
        let h' =
          subst (λ b. All (NoBetter x) (if b then m ∷ filter fits ms else filter fits ms)) no' h in
        ((λ f. absurd (not_fits m no' f)), All-NoBetter x ms h')
  ]

  -- The model selected by complexity is kept if its estimate is within the budget; otherwise the
  -- best of the available models that are within it takes its place; and only if none of them is,
  -- the request is rejected.
  pub within_budget-Checked :
      (m : ModelConfig) (complexity : ℕ)
      → Checked m complexity (within_budget shares m available tokens complexity budget)
  unfolding within_budget find_cheaper_model
  within_budget-Checked m complexity = elim (Bool-cases (fits m)) [
    | inl enough ↦ kept (ground (arith, enough)) (rw enough)
    | inr short ↦ elim (Option-cases (best_quality (affordable shares budget tokens available))) [
      | inl nothing ↦ refused (not_fits m short) (none-Fits available nothing) (rw (short, nothing))
      | inr (x, found) ↦
          downgraded x (not_fits m short) found (found-Fits x found)
            (All-NoBetter x available (best_quality_max _ x found)) (rw (short, found))
    ]
  ]
