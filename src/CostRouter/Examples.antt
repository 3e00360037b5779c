-- ===== src/CostRouter/Examples.antt =====
-- The theorems on the cost router at concrete users, models and budgets.
use ai_chat_bot_v.Base.{◌*◌, ◌/◌, ◌≡◌, refl, true, false, some, List, [], ◌∷◌, String}
use ai_chat_bot_v.Base.Int.{pos, ◌+ℤ◌}
use ai_chat_bot_v.Base.Text.{Text, codes, is_space}
use ai_chat_bot_v.CostRouter.Api.{decision_of, plain_query}
use ai_chat_bot_v.CostRouter.Budget.{Calendar, Ledger, get_budget}
use ai_chat_bot_v.CostRouter.Catalog.{Keys, Shares}
use ai_chat_bot_v.CostRouter.Choice.{RoutingDecision, RouteQuery, available_for, route}
use ai_chat_bot_v.CostRouter.Choice.Settled.{Settled, Available, route-Settled}
use ai_chat_bot_v.CostRouter.Score.{score}
use ai_chat_bot_v.RedisClient.{get_redis, get}
use ai_chat_bot_v.RedisClient.Sample.{sample, contents, Contents}
use ai_chat_bot_v.RedisClient.Server.{number}
use ai_chat_bot_v.Router.Providers.{Settings}
use ai_chat_bot_v.Router.Route.{order_of}

abbrev same_letters : Text → Text
same_letters t = t

abbrev shares : Shares
shares = record { input_share = λ n. n * 7 / 10; output_share = λ n. n * 3 / 10 }

abbrev keys : Keys
keys = record {
  gemini_api_key = true;
  openai_api_key = false;
  anthropic_api_key = false;
  ollama_enabled = true;
}

abbrev today : Calendar
today = record { days_in_month = 31; day = 3 }

abbrev ledger_of : Contents → Ledger sample today
ledger_of s = record { client = record { connected = true; server = s }; in_memory = [] }

-- A ledger in which the user "ann" has nothing left.
abbrev spent : Ledger sample today
spent = ledger_of (record (contents true) { values = ("budget:monthly:ann", number (pos 0)) ∷ [] })

abbrev question : RouteQuery
question = plain_query "ann" "free" (codes "explain the error")

scores_the_question : score same_letters (codes "explain the error") 0 ≡ 8
unfolding score ◌+ℤ◌ is_space
scores_the_question = refl

route-Settled_example :
    (d : RoutingDecision) × ((route shares sample today same_letters keys question spent).0
      ≡ some d)
    × Settled shares
        (Available shares sample today same_letters keys question spent)
        (available_for keys question)
        500
        (get_budget sample today "ann" "free" spent).0
        d
route-Settled_example = route-Settled shares sample today same_letters keys question spent refl

nothing_left : (get_budget sample today "ann" "free" spent).0 ≡ pos 0
unfolding get_budget get_redis get
nothing_left = refl

abbrev settings : Settings
settings = record {
  llm_max_tokens = 2048;
  llm_temperature = 70;
  llm_max_retries = 3;
  llm_retry_delay = 1_000_000;
  gemini_api_key = true;
  openai_api_key = false;
  anthropic_api_key = false;
  ollama_enabled = true;
  gemini_model = "gemini-3.5-flash";
  gemini_pro_model = "gemini-2.5-flash";
  openai_model = "gpt-4o-mini";
  openai_pro_model = "gpt-4o";
  anthropic_model = "claude-3-haiku-20240307";
  anthropic_pro_model = "claude-sonnet-4-6";
  ollama_model = "llama3";
}

abbrev spent_order : List String
spent_order =
    order_of settings (decision_of (route shares sample today same_letters keys question spent).0)
