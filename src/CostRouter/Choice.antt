-- ===== src/CostRouter/Choice.antt =====
-- ai/cost_router.py, `CostRouter.route` and `deduct_cost`. The reasoning, the factors and the text
-- of a rejection are left out of the decision; the complexity is in hundredths.
pub mod Best
pub mod Within
pub mod Settled
use ai_chat_bot_v.Base.{
  ℕ, ◌+◌, ◌*◌, Bool, true, false, not, ◌&&◌, Option, none, some, List, [], ◌∷◌, String, str_eq,
  if◌then◌else◌,
}
use ai_chat_bot_v.Base.Int.{ℤ, pos, leb_ℤ}
use ai_chat_bot_v.Base.Text.{Text}
use ai_chat_bot_v.CostRouter.Budget.{Calendar, Ledger, get_budget, deduct_budget}
use ai_chat_bot_v.CostRouter.Catalog.{
  ModelConfig, model_catalog, find_model, Keys, get_available_models, select_by_complexity, Shares,
  estimate_cost, find_cheaper_model,
}
use ai_chat_bot_v.CostRouter.Score.{score}
use ai_chat_bot_v.RedisClient.Server.{RedisServer}

pub record RoutingDecision : Type 0 where
  pub model : Option String
  pub provider : String
  pub api_model_id : String
  pub rejected : Bool
  pub estimated_cost_usd : ℕ
  pub complexity_score : ℕ
  pub fallback_used : Bool
  pub budget_remaining_usd : ℤ

-- The arguments of `route`.
pub record RouteQuery : Type 0 where
  pub user_id : String
  pub query : Text
  pub estimated_tokens : ℕ
  pub user_tier : String
  pub context_length : ℕ
  pub require_vision : Bool
  pub require_functions : Bool
  pub force_model : Option String
  pub preferred_provider : Option String

abbrev pub accept : ModelConfig → (cost complexity : ℕ) → Bool → ℤ → RoutingDecision
accept m cost complexity fallback budget = record {
  model = some m.name;
  provider = m.provider;
  api_model_id = m.api_model_id;
  rejected = false;
  estimated_cost_usd = cost;
  complexity_score = complexity;
  fallback_used = fallback;
  budget_remaining_usd = budget;
}

abbrev pub reject : ℕ → ℤ → RoutingDecision
reject complexity budget = record {
  model = none;
  provider = "none";
  api_model_id = "none";
  rejected = true;
  estimated_cost_usd = 0;
  complexity_score = complexity;
  fallback_used = false;
  budget_remaining_usd = budget;
}

-- The model that `force_model` names, if it names one of the catalog.
abbrev pub forced : Option String → Option ModelConfig
forced none = none
forced (some name) = if str_eq name "" then none else find_model name model_catalog

-- The models that the keys and the query leave.
abbrev pub available_for : Keys → RouteQuery → List ModelConfig
available_for keys q =
    get_available_models keys q.require_vision q.require_functions q.preferred_provider

module _ (shares : Shares) where
  -- From "Check budget" on: the model selected by complexity, or a cheaper one, or a rejection.
  unfoldable pub within_budget :
      ModelConfig → List ModelConfig → (tokens complexity : ℕ) → ℤ → RoutingDecision
  within_budget m available tokens complexity budget =
      if leb_ℤ (pos (estimate_cost shares m tokens)) budget
      then accept m (estimate_cost shares m tokens) complexity false budget
      else (elim (find_cheaper_model shares available budget tokens) [
        | some cheaper ↦ accept cheaper (estimate_cost shares cheaper tokens) complexity true budget
        | none ↦ reject complexity budget
      ])

  module _ (redis : RedisServer) (today : Calendar) (lower : Text → Text) (keys : Keys) where
    -- The choice among the available models; `none` is an exception.
    unfoldable pub choose :
        RouteQuery
        → (complexity : ℕ) → List ModelConfig
        → Ledger redis today
        → Option RoutingDecision × Ledger redis today
    unfolding within_budget
    choose q complexity [] l = (some (reject complexity (pos 0)), l)
    choose q complexity (m ∷ ms) l = elim (select_by_complexity complexity (m ∷ ms)) [
      | none ↦ (none, l)
      | some best ↦
          let (budget, l') = get_budget redis today q.user_id q.user_tier l in
          (some (within_budget best (m ∷ ms) q.estimated_tokens complexity budget), l')
    ]

    unfoldable pub route :
        RouteQuery → Ledger redis today → Option RoutingDecision × Ledger redis today
    unfolding choose
    route q l = elim (forced q.force_model) [
      | some m ↦
          let (budget, l') = get_budget redis today q.user_id q.user_tier l in
          (some (accept m (estimate_cost shares m q.estimated_tokens) 0 false budget), l')
      | none ↦ choose q (score lower q.query q.context_length) (available_for keys q) l
    ]

-- The cost of the tokens used, in nano-dollars.
unfoldable pub actual_cost : ModelConfig → (input output : ℕ) → ℕ
actual_cost m input output = m.input_cost_per_1k * input + m.output_cost_per_1k * output

-- An unknown model costs nothing and is not deducted.
unfoldable pub deduct_cost :
    (redis : RedisServer) (today : Calendar)
    → (user model : String) (input output : ℕ) (tier : String) → Ledger redis today
    → ℕ × Ledger redis today
unfolding actual_cost
deduct_cost redis today user model input output tier l = elim (find_model model model_catalog) [
  | none ↦ (0, l)
  | some m ↦ (
    actual_cost m input output,
    deduct_budget redis today user tier (actual_cost m input output) l,
  )
]
