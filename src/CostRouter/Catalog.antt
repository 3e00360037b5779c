-- ===== src/CostRouter/Catalog.antt =====
-- ai/cost_router.py: the model catalog with its prices, the budgets of the tiers, and the choice of
-- a model among those available. A price is in micro-dollars for 1000 tokens, which is nano-dollars
-- for one token; a quality and a complexity are in hundredths. The list of available names is held
-- as the list of their catalog entries.
use ai_chat_bot_v.Base.{
  ℕ, ◌+◌, ◌*◌, Bool, true, false, not, ◌&&◌, Option, none, some, List, [], ◌∷◌, ◌++◌, String,
  filter, ltb, str_eq, if◌then◌else◌,
}
use ai_chat_bot_v.Base.Dict.{Dict, get_or}
use ai_chat_bot_v.Base.Int.{ℤ, pos, leb_ℤ}

pub data ModelTier : Type 0 where
  cheap standard premium local : ModelTier

abbrev pub tier_eq : ModelTier → ModelTier → Bool
tier_eq cheap cheap = true
tier_eq standard standard = true
tier_eq premium premium = true
tier_eq local local = true
tier_eq a b = false

pub record ModelConfig : Type 0 where
  pub name : String
  pub provider : String
  pub api_model_id : String
  pub tier : ModelTier
  pub input_cost_per_1k : ℕ
  pub output_cost_per_1k : ℕ
  pub supports_vision : Bool
  pub supports_functions : Bool
  pub quality_score : ℕ
  pub enabled : Bool

abbrev entry :
    (name provider api : String)
    → ModelTier
    → (input output : ℕ) → Bool
    → (quality : ℕ) → ModelConfig
entry name provider api tier input output capable quality = record {
  name = name;
  provider = provider;
  api_model_id = api;
  tier = tier;
  input_cost_per_1k = input;
  output_cost_per_1k = output;
  supports_vision = capable;
  supports_functions = capable;
  quality_score = quality;
  enabled = true;
}

abbrev pub ollama_llama3 : ModelConfig
ollama_llama3 = entry "ollama-llama3" "ollama" "llama3" local 0 0 false 70

abbrev pub model_catalog : List ModelConfig
model_catalog =
    entry "gemini-flash" "gemini" "gemini-3.5-flash" cheap 75 300 true 75
    ∷ entry "gemini-pro" "gemini" "gemini-2.5-flash" premium 1250 5000 true 92
    ∷ entry "gpt-4o-mini" "openai" "gpt-4o-mini" standard 150 600 true 82
    ∷ entry "gpt-4o" "openai" "gpt-4o" premium 2500 10000 true 95
    ∷ entry "claude-haiku" "anthropic" "claude-3-haiku-20240307" cheap 250 1250 true 78
    ∷ entry "claude-sonnet" "anthropic" "claude-sonnet-4-6" standard 3000 15000 true 93
    ∷ ollama_llama3
    ∷ []

-- `MODEL_CATALOG.get(name)`
unfoldable pub find_model : String → List ModelConfig → Option ModelConfig
find_model name [] = none
find_model name (m ∷ ms) = if str_eq m.name name then some m else find_model name ms

-- In nano-dollars.
abbrev pub tier_monthly_budgets : Dict ℕ
tier_monthly_budgets =
    ("free", 2_000_000_000)
    ∷ ("pro", 50_000_000_000)
    ∷ ("enterprise", 500_000_000_000)
    ∷ ("anonymous", 100_000_000)
    ∷ []

-- `TIER_MONTHLY_BUDGETS.get(user_tier, TIER_MONTHLY_BUDGETS["free"])`
unfoldable pub monthly_limit : String → ℤ
monthly_limit tier = pos (get_or tier tier_monthly_budgets 2_000_000_000)

-- The settings that say which providers have a key.
pub record Keys : Type 0 where
  pub gemini_api_key : Bool
  pub openai_api_key : Bool
  pub anthropic_api_key : Bool
  pub ollama_enabled : Bool

unfoldable pub is_provider_configured : Keys → String → Bool
is_provider_configured keys provider =
    if str_eq provider "gemini"
    then keys.gemini_api_key
    else if str_eq provider "openai"
    then keys.openai_api_key
    else if str_eq provider "anthropic"
    then keys.anthropic_api_key
    else if str_eq provider "ollama"
    then keys.ollama_enabled
    else false

-- One round of the loop of `_get_available_models`.
unfoldable pub is_available : Keys → (vision functions : Bool) → ModelConfig → Bool
unfolding is_provider_configured
is_available keys vision functions m =
    if not m.enabled
    then false
    else if not (is_provider_configured keys m.provider)
    then false
    else if vision && not m.supports_vision
    then false
    else if functions && not m.supports_functions
    then false
    else true

-- The stable sort by a key of two values.
abbrev pub prefer : Option String → List ModelConfig → List ModelConfig
prefer none ms = ms
prefer (some p) ms =
    filter (λ m. str_eq m.provider p) ms ++ filter (λ m. not (str_eq m.provider p)) ms

unfoldable pub get_available_models :
    Keys → (vision functions : Bool) → Option String → List ModelConfig
unfolding is_available
get_available_models keys vision functions preferred =
    prefer preferred (filter (is_available keys vision functions) model_catalog)

-- `max(ms, key=quality_score)`: the first model of the highest quality.
unfoldable pub best_from : ModelConfig → List ModelConfig → ModelConfig
best_from best [] = best
best_from best (m ∷ ms) = best_from (if ltb best.quality_score m.quality_score then m else best) ms

unfoldable pub best_quality : List ModelConfig → Option ModelConfig
unfolding best_from
best_quality [] = none
best_quality (m ∷ ms) = some (best_from m ms)

abbrev pub target_tier : ℕ → ModelTier
target_tier complexity =
    if ltb complexity 30 then cheap else if ltb complexity 65 then standard else premium

abbrev pub of_tier : ModelTier → List ModelConfig → List ModelConfig
of_tier t = filter (λ m. tier_eq m.tier t)

-- The first answer of two.
abbrev pub or_else : Option ModelConfig → Option ModelConfig → Option ModelConfig
or_else none b = b
or_else (some m) b = some m

abbrev pub first : List ModelConfig → Option ModelConfig
first [] = none
first (m ∷ ms) = some m

-- `none` is the `IndexError` of `available[0]`.
unfoldable pub select_by_complexity : ℕ → List ModelConfig → Option ModelConfig
unfolding best_quality
select_by_complexity complexity available =
    or_else (best_quality (of_tier (target_tier complexity) available)) (
      or_else (best_quality (of_tier standard available)) (
        or_else (best_quality (of_tier cheap available)) (
          or_else (best_quality (of_tier premium available))
            (or_else (best_quality (of_tier local available)) (first available)))))

-- `int(n * 0.7)` and `int(n * 0.3)`, whose rounding is that of the floats.
pub record Shares : Type 0 where
  pub input_share : ℕ → ℕ
  pub output_share : ℕ → ℕ

module _ (shares : Shares) where
  -- In nano-dollars.
  unfoldable pub estimate_cost : ModelConfig → ℕ → ℕ
  estimate_cost m tokens =
      m.input_cost_per_1k * shares.input_share tokens
      + m.output_cost_per_1k * shares.output_share tokens

  abbrev pub affordable : ℤ → ℕ → List ModelConfig → List ModelConfig
  affordable budget tokens = filter (λ m. leb_ℤ (pos (estimate_cost m tokens)) budget)

  unfoldable pub find_cheaper_model : List ModelConfig → ℤ → ℕ → Option ModelConfig
  unfolding best_quality
  find_cheaper_model available budget tokens = best_quality (affordable budget tokens available)
