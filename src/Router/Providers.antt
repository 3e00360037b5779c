-- ===== src/Router/Providers.antt =====
-- model_router.py: the registry of models, the default order of fallback, and the world in which
-- `route` runs. The settings, the provider calls and the clock are parameters.
use ai_chat_bot_v.Base.{ℕ, Bool, Option, List, [], ◌∷◌, String}
use ai_chat_bot_v.Base.Dict.{Dict, lookup}
use ai_chat_bot_v.Base.Text.{Text}
use ai_chat_bot_v.Router.Messages.{ChatMessage}

-- What `route` reads of config.py. Delays are in microseconds, temperatures in hundredths.
pub record Settings : Type 0 where
  pub llm_max_tokens : ℕ
  pub llm_temperature : ℕ
  pub llm_max_retries : ℕ
  pub llm_retry_delay : ℕ
  pub gemini_api_key : Bool
  pub openai_api_key : Bool
  pub anthropic_api_key : Bool
  pub ollama_enabled : Bool
  pub gemini_model : String
  pub gemini_pro_model : String
  pub openai_model : String
  pub openai_pro_model : String
  pub anthropic_model : String
  pub anthropic_pro_model : String
  pub ollama_model : String

-- An entry of `PROVIDER_CONFIGS`, with `enabled()` read from the settings.
pub record ProviderConfig : Type 0 where
  pub provider : String
  pub model_id : String
  pub enabled : Bool

abbrev pub provider_configs : Settings → Dict ProviderConfig
provider_configs s =
    (
      "gemini-flash",
      record { provider = "gemini"; model_id = s.gemini_model; enabled = s.gemini_api_key },
    )
    ∷ (
      "gemini-pro",
      record { provider = "gemini"; model_id = s.gemini_pro_model; enabled = s.gemini_api_key },
    )
    ∷ (
      "gpt-4o-mini",
      record { provider = "openai"; model_id = s.openai_model; enabled = s.openai_api_key },
    )
    ∷ (
      "gpt-4o",
      record { provider = "openai"; model_id = s.openai_pro_model; enabled = s.openai_api_key },
    )
    ∷ (
      "claude-haiku",
      record {
        provider = "anthropic";
        model_id = s.anthropic_model;
        enabled = s.anthropic_api_key;
      },
    )
    ∷ (
      "claude-sonnet",
      record {
        provider = "anthropic";
        model_id = s.anthropic_pro_model;
        enabled = s.anthropic_api_key;
      },
    )
    ∷ (
      "ollama",
      record { provider = "ollama"; model_id = s.ollama_model; enabled = s.ollama_enabled },
    )
    ∷ []

-- `PROVIDER_CONFIGS[name]`, or `none` where `name not in PROVIDER_CONFIGS`.
unfoldable pub find_config : Settings → String → Option ProviderConfig
find_config s name = lookup name (provider_configs s)

abbrev pub default_fallback_chain : List String
default_fallback_chain =
    "gemini-flash" ∷ "gpt-4o-mini" ∷ "claude-haiku" ∷ "gemini-pro" ∷ "gpt-4o" ∷ "claude-sonnet"
    ∷ "ollama" ∷ []

-- The arguments of a provider function.
pub record Request : Type 0 where
  pub model_name : String
  pub model_id : String
  pub messages : List ChatMessage
  pub max_tokens : ℕ
  pub temperature : ℕ

-- How one attempt under `asyncio.wait_for` ends. The header `Retry-After` of an HTTP error may be
-- missing, or may be no number.
pub data RetryAfter : Type 0 where
  missing : RetryAfter
  malformed : RetryAfter
  after : ℕ → RetryAfter

pub data Attempt : Type 0 where
  replied : Text → ℕ → ℕ → Attempt
  timed_out : Attempt
  http_status : ℕ → RetryAfter → Attempt
  failed : Attempt

-- The world outside: a reading of the clock, an attempt and a sleep each change it.
pub record Env : Type 1 where
  pub World : Type 0
  pub clock : World → ℕ × World
  pub call : Request → World → Attempt × World
  pub sleep : ℕ → World → World

-- What the cost router decides: `raised` where it raises, `unavailable` where there is none.
pub data Decision : Type 0 where
  rejected : Decision
  chosen : Option String → Decision
  raised : Decision
  unavailable : Decision

-- The cost router as `ModelRouter` uses it. Costs are in nano-dollars; `none` where it raises or is
-- not there.
pub record CostApi (World : Type 0) : Type 0 where
  pub decide : (user tier : String) (query : Text) → World → Decision × World
  pub deduct : (user model tier : String) (input output : ℕ) → World → Option ℕ × World
