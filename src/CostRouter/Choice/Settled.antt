-- ===== src/CostRouter/Choice/Settled.antt =====
-- `CostRouter.route` without a forced model: it always decides, and within the user's budget.
use mathlib.Core.Path.{subst}
use ai_chat_bot_v.Base.{
  some-none, ℕ, ◌≡◌, ◌≢◌, refl, Bool, true, false, Option, none, some, List, [], ◌∷◌, All,
  All-filter, Option-cases, inl, inr,
}
use ai_chat_bot_v.Base.Int.{ℤ, leb_ℤ, pos}
use ai_chat_bot_v.Base.Text.{Text}
use ai_chat_bot_v.CostRouter.Budget.{Calendar, Ledger, get_budget}
use ai_chat_bot_v.CostRouter.Catalog.{
  ModelTier, cheap, standard, premium, local, of_tier, target_tier, ModelConfig, best_quality,
  Shares, estimate_cost, find_cheaper_model, select_by_complexity, is_available, Keys, or_else,
  affordable,
}
use ai_chat_bot_v.CostRouter.Choice.{
  RoutingDecision, RouteQuery, accept, reject, within_budget, choose, route, available_for, forced,
}
use ai_chat_bot_v.CostRouter.Choice.Best.{
  best_quality-Holds, Holds, select_by_complexity-Holds, available-All,
}
use ai_chat_bot_v.CostRouter.Choice.Within.{Fits, kept, downgraded, refused, within_budget-Checked}
use ai_chat_bot_v.CostRouter.Score.{score}
use ai_chat_bot_v.RedisClient.Server.{RedisServer}

or_else_some : (a b : Option ModelConfig) → b ≢ none → or_else a b ≢ none
or_else_some none b h = h
or_else_some (some m) b h = some-none

-- The choice by complexity never finds an empty list where there is a model.
select_by_complexity_some :
    (c : ℕ) (m : ModelConfig) (ms : List ModelConfig) → select_by_complexity c (m ∷ ms) ≢ none
unfolding select_by_complexity
select_by_complexity_some c m ms =
    let pick = λ (t : ModelTier). best_quality (of_tier t (m ∷ ms)) in
    or_else_some (pick (target_tier c)) _ (
      or_else_some (pick standard) _ (
        or_else_some (pick cheap) _
          (or_else_some (pick premium) _ (or_else_some (pick local) (some m) (some-none {a = m})))))

-- A decision without a forced model: a model that is available and whose estimate is within the
-- budget, or a rejection where no available model's estimate is.
pub data Settled (shares : Shares) (P : ModelConfig → Type 0) (available : List ModelConfig)
    (tokens : ℕ) (budget : ℤ) (d : RoutingDecision) : Type 0 where
  paid :
      (m : ModelConfig) (complexity : ℕ) (fallback : Bool)
      → P m
      → Fits shares available tokens budget m
      → d ≡ accept m (estimate_cost shares m tokens) complexity fallback budget
      → Settled shares P available tokens budget d
  turned_away :
      All (λ m. ¬ Fits shares available tokens budget m) available
      → d.model ≡ none
      → d.rejected ≡ true
      → Settled shares P available tokens budget d

module _ (shares : Shares) (P : ModelConfig → Type 0) (available : List ModelConfig) (tokens : ℕ)
    (budget : ℤ) where
  cheaper-Holds :
      (x : ModelConfig)
      → All P available
      → find_cheaper_model shares available budget tokens ≡ some x
      → P x
  unfolding find_cheaper_model
  cheaper-Holds x all e = subst (Holds P) e (
      best_quality-Holds P (affordable shares budget tokens available)
        (All-filter P (λ m. leb_ℤ (pos (estimate_cost shares m tokens)) budget) available all))

  within_budget-Settled :
      (m : ModelConfig) (complexity : ℕ)
      → P m
      → All P available
      → Settled shares P available tokens budget
          (within_budget shares m available tokens complexity budget)
  within_budget-Settled m complexity h all =
      elim (within_budget-Checked shares available tokens budget m complexity) [
        | kept fits e ↦ paid m complexity false h fits e
        | downgraded x short found fits best e ↦
            paid x complexity true (cheaper-Holds x all found) fits e
        | refused short nothing e ↦ turned_away nothing (rw e) (rw e)
      ]

module _ (shares : Shares) (redis : RedisServer) (today : Calendar) (lower : Text → Text)
    (keys : Keys) (q : RouteQuery) (l : Ledger redis today) where
  abbrev pub Available : ModelConfig → Type 0
  Available m = is_available keys q.require_vision q.require_functions m ≡ true

  abbrev budget_of : ℤ
  budget_of = (get_budget redis today q.user_id q.user_tier l).0

  module _ (P : ModelConfig → Type 0) where
    choose-Settled :
        (complexity : ℕ) (available : List ModelConfig)
        → All P available
        → (d : RoutingDecision) × ((choose shares redis today lower keys q complexity available l).0
            ≡ some d)
          × Settled shares P available q.estimated_tokens budget_of d
    unfolding choose
    choose-Settled complexity [] all = (reject complexity (pos 0), refl, turned_away tt refl refl)
    choose-Settled complexity (m ∷ ms) all =
        elim (Option-cases (select_by_complexity complexity (m ∷ ms))) [
          | inl nothing ↦ absurd (select_by_complexity_some complexity m ms nothing)
          | inr (best, found) ↦ (
            within_budget shares best (m ∷ ms) q.estimated_tokens complexity budget_of,
            rw (found, choose),
            within_budget-Settled shares P (m ∷ ms) q.estimated_tokens budget_of best complexity
                (subst (Holds P) found (select_by_complexity-Holds P complexity (m ∷ ms) all)) all,
          )
        ]

    -- With any property that all the available models have.
    pub settle_free :
        All P (available_for keys q)
        → forced q.force_model ≡ none
        → (d : RoutingDecision) × ((route shares redis today lower keys q l).0 ≡ some d)
          × Settled shares P (available_for keys q) q.estimated_tokens budget_of d
    unfolding route
    settle_free all free =
        let settled =
          choose-Settled (score lower q.query q.context_length) (available_for keys q) all in
        rw (free, route) settled

  -- Where no model of the catalog is forced, `route` raises nothing. It names a model that has a key
  -- and what the query requires, with an estimate within the budget that the user has left; or it
  -- rejects the request, and then no available model's estimate is within that budget.
  pub route-Settled :
      forced q.force_model ≡ none
      → (d : RoutingDecision) × ((route shares redis today lower keys q l).0 ≡ some d)
        × Settled shares Available (available_for keys q) q.estimated_tokens budget_of d
  route-Settled free =
      settle_free Available
        (available-All keys q.require_vision q.require_functions q.preferred_provider) free
