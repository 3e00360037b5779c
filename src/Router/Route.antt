-- ===== src/Router/Route.antt =====
-- model_router.py, `ModelRouter.route`: the order of the models, the filter by the circuit breaker,
-- and the loop that falls back. Usage logging and log lines are left out.
pub mod Order
pub mod Fallback
pub mod Answers
use ai_chat_bot_v.Base.{
  ℕ, ◌+◌, ◌-◌, ◌/◌, ◌<◌, Bool, true, false, not, ◌&&◌, Option, none, some, List, [], ◌∷◌, ◌++◌,
  String, length, filter, ltb, str_eq, if◌then◌else◌, ◌==◌,
}
use ai_chat_bot_v.Base.Text.{Text, strip, is_empty}
use ai_chat_bot_v.Router.Breaker.{Breaker, is_open, record_success, record_failure}
use ai_chat_bot_v.Router.Messages.{ChatMessage, Turn, build_messages}
use ai_chat_bot_v.Router.Providers.{
  Settings, ProviderConfig, find_config, default_fallback_chain, Request, Env, Decision, rejected,
  chosen, raised, unavailable, CostApi,
}
use ai_chat_bot_v.Router.Retry.{Outcome, reply, gave_up, fell_through, call_with_retry}

pub record ModelResponse : Type 0 where
  pub response : Text
  pub model : String
  pub provider : String
  pub prompt_tokens : ℕ
  pub completion_tokens : ℕ
  pub total_tokens : ℕ
  pub duration_ms : ℕ
  pub cost_usd : ℕ
  pub fallback_used : Bool
  pub fallback_chain : List String

-- `ok`, or one of the exceptions that `route` raises.
pub data Routed : Type 0 where
  ok : ModelResponse → Routed
  empty_prompt : Routed
  no_providers : Routed
  all_failed : List String → Routed
  key_error : Routed

-- The arguments of `route`.
pub record Query : Type 0 where
  pub prompt : Text
  pub user_id : String
  pub user_tier : String
  pub system_prompt : Option Text
  pub history : List Turn
  pub preferred_model : Option String
  pub max_tokens : Option ℕ
  pub temperature : Option ℕ
  pub use_cost_router : Bool

-- `[preferred] + [m for m in DEFAULT_FALLBACK_CHAIN if m != preferred]`
unfoldable pub preferred_first : String → List String
preferred_first p = p ∷ filter (λ m. not (str_eq m p)) default_fallback_chain

-- `preferred and preferred in PROVIDER_CONFIGS`
abbrev is_known : Settings → Option String → Bool
is_known s none = false
is_known s (some p) = not (str_eq p "") && (elim (find_config s p) [ none ↦ false | some _ ↦ true ])

-- The order that a decision of the cost router gives.
unfoldable pub order_of : Settings → Decision → List String
unfolding preferred_first
order_of s rejected = []
order_of s raised = default_fallback_chain
order_of s unavailable = default_fallback_chain
order_of s (chosen none) = default_fallback_chain
order_of s (chosen (some p)) =
    if is_known s (some p) then preferred_first p else default_fallback_chain

-- `max_tokens or settings.llm_max_tokens`
abbrev tokens_or : Option ℕ → ℕ → ℕ
tokens_or none d = d
tokens_or (some n) d = if n == 0 then d else n

abbrev temperature_or : Option ℕ → ℕ → ℕ
temperature_or none d = d
temperature_or (some n) d = n

abbrev or_zero : Option ℕ → ℕ
or_zero none = 0
or_zero (some n) = n

module _ (env : Env) (costs : CostApi env.World) (s : Settings) where
  open env use {World, clock}

  -- The world and the breaker, which every router shares.
  abbrev pub State : Type 0
  State = World × Breaker

  unfoldable pub get_cost_routing_order : Query → Text → World → List String × World
  unfolding order_of
  get_cost_routing_order q prompt w =
      let (decision, w') = costs.decide q.user_id q.user_tier prompt w in (order_of s decision, w')

  unfoldable pub routing_order : Query → Text → World → List String × World
  unfolding get_cost_routing_order
  routing_order q prompt w =
      if is_known s q.preferred_model
      then (elim q.preferred_model [ none ↦ [] | some p ↦ preferred_first p ], w)
      else if q.use_cost_router
      then get_cost_routing_order q prompt w
      else (default_fallback_chain, w)

  -- The comprehension that keeps the enabled models whose provider is not skipped.
  unfoldable pub select_available : List String → State → List String × State
  select_available [] st = ([], st)
  select_available (m ∷ ms) (w, b) = elim (find_config s m) [
    | none ↦ select_available ms (w, b)
    | some c ↦ elim c.enabled [
      | false ↦ select_available ms (w, b)
      | true ↦
          let (now, w') = clock w in
          let (skip, b') = is_open c.provider now b in
          let (rest, st) = select_available ms (w', b') in (if skip then rest else m ∷ rest, st)
    ]
  ]

  -- The response of a call that came back, and the cost deducted for it.
  unfoldable pub respond :
      Query
      → (start : ℕ) → (tried : List String) → String
      → String
      → Text
      → (prompt completion : ℕ) → World
      → ModelResponse × World
  respond q start tried m provider text prompt completion w =
      let (now, w1) = clock w in
      let (cost, w2) = costs.deduct q.user_id m q.user_tier prompt completion w1 in
      (
        record {
          response = text;
          model = m;
          provider = provider;
          prompt_tokens = prompt;
          completion_tokens = completion;
          total_tokens = prompt + completion;
          duration_ms = (now - start) / 1000;
          cost_usd = or_zero cost;
          fallback_used = ltb 1 (length tried);
          fallback_chain = tried;
        },
        w2,
      )

  -- The arguments of the provider function of a model.
  abbrev pub request_for : Query → List ChatMessage → String → ProviderConfig → Request
  request_for q messages m c = record {
    model_name = m;
    model_id = c.model_id;
    messages = messages;
    max_tokens = tokens_or q.max_tokens s.llm_max_tokens;
    temperature = temperature_or q.temperature s.llm_temperature;
  }

  -- The loop over the available models; `tried` are those tried before.
  unfoldable pub try_models :
      Query
      → List ChatMessage
      → (start : ℕ) → List String
      → (tried : List String) → State
      → Routed × State
  unfolding respond
  try_models q messages start [] tried st = (all_failed tried, st)
  try_models q messages start (m ∷ ms) tried (w, b) = elim (find_config s m) [
    | none ↦ (key_error, (w, b))
    | some c ↦
        let (outcome, w1) =
          call_with_retry env s.llm_max_retries s.llm_retry_delay (request_for q messages m c) w in
        let next =
          let (now, w2) = clock w1 in
          try_models q messages start ms (tried ++ m ∷ []) (w2, record_failure c.provider now b) in
        elim outcome [
          | reply text prompt completion ↦
              let (r, w2) =
                respond q start (tried ++ m ∷ []) m c.provider text prompt completion w1 in
              (ok r, (w2, record_success c.provider b))
          | gave_up ↦ next
          | fell_through ↦ next
        ]
  ]

  -- What follows once the models are chosen.
  unfoldable pub run_models : Query → List ChatMessage → ℕ → List String × State → Routed × State
  unfolding try_models
  run_models q messages start ([], st) = (no_providers, st)
  run_models q messages start (m ∷ ms, st) = try_models q messages start (m ∷ ms) [] st

  unfoldable pub route : Query → State → Routed × State
  unfolding routing_order select_available run_models
  route q (w, b) =
      let prompt = strip q.prompt in
      if is_empty prompt
      then (empty_prompt, (w, b))
      else let (start, w1) = clock w in
        let messages = build_messages prompt q.system_prompt q.history in
        let (order, w2) = routing_order q prompt w1 in
        run_models q messages start (select_available order (w2, b))
