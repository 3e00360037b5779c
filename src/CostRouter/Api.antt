-- ===== src/CostRouter/Api.antt =====
-- The cost router as model_router.py uses it: what `_get_cost_routing_order` makes of a decision,
-- and the interface that `ModelRouter` takes.
use ai_chat_bot_v.Base.{
  ◌≡◌, false, Option, none, some, [], All, ◌⊎◌, inl, inr, String, if◌then◌else◌,
}
use ai_chat_bot_v.Base.Text.{Text}
use ai_chat_bot_v.CostRouter.Budget.{Calendar, Ledger, get_budget}
use ai_chat_bot_v.CostRouter.Catalog.{Shares, Keys, ollama_llama3}
use ai_chat_bot_v.CostRouter.Choice.{
  RoutingDecision, RouteQuery, available_for, forced, route, deduct_cost,
}
use ai_chat_bot_v.CostRouter.Choice.Settled.{paid, turned_away, settle_free}
use ai_chat_bot_v.CostRouter.Choice.Within.{Fits}
use ai_chat_bot_v.RedisClient.Server.{RedisServer}
use ai_chat_bot_v.Router.Providers.{
  Settings, Decision, rejected, chosen, raised, CostApi, find_config, default_fallback_chain,
}
use ai_chat_bot_v.Router.Route.{order_of}

-- What `_get_cost_routing_order` reads of a decision.
abbrev pub decision_of : Option RoutingDecision → Decision
decision_of none = raised
decision_of (some d) = if d.rejected then rejected else chosen d.model

-- The query with the defaults of `route`'s other arguments.
abbrev pub plain_query : (user tier : String) → Text → RouteQuery
plain_query user tier query = record {
  user_id = user;
  query = query;
  estimated_tokens = 500;
  user_tier = tier;
  context_length = 0;
  require_vision = false;
  require_functions = false;
  force_model = none;
  preferred_provider = none;
}

module _ (shares : Shares) (redis : RedisServer) (today : Calendar) (lower : Text → Text)
    (keys : Keys) where
  abbrev pub cost_api : CostApi (Ledger redis today)
  cost_api = record {
    decide = λ user tier query l.
        let (d, l') = route shares redis today lower keys (plain_query user tier query) l in
        (decision_of d, l');
    deduct = λ user model tier input output l.
        let (cost, l') = deduct_cost redis today user model input output tier l in (some cost, l');
  }

  -- Where no model but the local one is within the budget, the model router does not get the local
  -- one to try first: it gets nothing, if that one is not available either, or its default chain.
  pub local_choice_is_lost :
      (s : Settings) (q : RouteQuery) (l : Ledger redis today)
      → forced q.force_model ≡ none
      → All
          (λ m.
            Fits shares
              (available_for keys q)
              q.estimated_tokens
              (get_budget redis today q.user_id q.user_tier l).0
              m
            → m ≡ ollama_llama3)
          (available_for keys q)
      → (order_of s (decision_of (route shares redis today lower keys q l).0) ≡ [])
        ⊎ (order_of s (decision_of (route shares redis today lower keys q l).0)
            ≡ default_fallback_chain)
  unfolding order_of find_config
  local_choice_is_lost s q l free only =
      let (d, e, settled) = settle_free shares redis today lower keys q l _ only free in
      elim settled [
        | paid m complexity fallback h fits same ↦ inr (rw (e, same, h fits))
        | turned_away nothing unnamed refused ↦ inl (rw (e, refused))
      ]
