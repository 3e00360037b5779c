-- ===== src/Router/Examples.antt =====
-- The theorems on the model router at concrete requests, and small runs of it.
use ai_chat_bot_v.Base.{
  ℕ, suc, ◌≡◌, ◌≢◌, refl, true, false, Option, none, some, List, [], ◌∷◌, ◌++◌, String, arith,
  seconds,
}
use ai_chat_bot_v.Base.Dict.{insert, erase}
use ai_chat_bot_v.Base.Text.{Text, strip, is_empty, codes, is_space}
use ai_chat_bot_v.Compressor.{PastMessage, normalize, head_message, summarize, Message}
use ai_chat_bot_v.Router.Breaker.{Breaker, default_breaker, is_open, record_failure, record_success}
use ai_chat_bot_v.Router.Breaker.Phases.{opened, phase}
use ai_chat_bot_v.Router.Breaker.Runs.{
  Event, succeed, fail, ask, run, moves, answers, replies, phase-run,
}
use ai_chat_bot_v.Router.Messages.{gemini_request, anthropic_payload}
use ai_chat_bot_v.Router.Messages.Systems.{compression_drops_system_prompt, request}
use ai_chat_bot_v.Router.Providers.{
  Settings, find_config, Env, CostApi, Request, replied, unavailable,
}
use ai_chat_bot_v.Router.Retry.{call_with_retry}
use ai_chat_bot_v.Router.Route.{ModelResponse, ok, Query, route}
use ai_chat_bot_v.Router.Route.Answers.{
  Answers, selection, route-Answers, route_live, route_avoids-Tripped,
}

-- The circuit of "gemini" after three failures, the last at second 12.
abbrev gemini_down : Breaker
gemini_down = record default_breaker {
  failures = ("gemini", 3) ∷ [];
  opened_at = ("gemini", seconds 12) ∷ [];
}

abbrev three_failures : List Event
three_failures =
    fail "gemini" (seconds 10)
    ∷ ask "gemini" (seconds 10)
    ∷ fail "gemini" (seconds 11)
    ∷ fail "openai" 5
    ∷ fail "gemini" (seconds 12)
    ∷ []

three_failures_trip : phase "gemini" (run three_failures default_breaker) ≡ opened (seconds 12)
unfolding phase run record_failure is_open insert
three_failures_trip = refl

abbrev failures_and_questions : List Event
failures_and_questions =
    three_failures ++ ask "gemini" (seconds 30) ∷ succeed "openai" ∷ ask "gemini" (seconds 80) ∷ []

phase-run_example :
    (phase "gemini" (run failures_and_questions default_breaker)
      ≡ moves 3 60 "gemini" failures_and_questions (phase "gemini" default_breaker))
    × (answers "gemini" failures_and_questions default_breaker
        ≡ replies 3 60 "gemini" failures_and_questions (phase "gemini" default_breaker))
phase-run_example =
    phase-run 3 60 "gemini" failures_and_questions default_breaker (omega arith) refl refl

-- Tried before it fails, skipped within the timeout, and tried after it.
skipped_then_tried :
    answers "gemini" failures_and_questions default_breaker ≡ false ∷ true ∷ false ∷ []
unfolding answers run phase record_failure record_success is_open insert erase
skipped_then_tried = refl

abbrev other_calls : List Event
other_calls = ask "gemini" (seconds 30) ∷ succeed "openai" ∷ []

abbrev settings : Settings
settings = record {
  llm_max_tokens = 4096;
  llm_temperature = 70;
  llm_max_retries = 3;
  llm_retry_delay = seconds 1;
  gemini_api_key = true;
  openai_api_key = true;
  anthropic_api_key = false;
  ollama_enabled = false;
  gemini_model = "g";
  gemini_pro_model = "gp";
  openai_model = "o";
  openai_pro_model = "op";
  anthropic_model = "a";
  anthropic_pro_model = "ap";
  ollama_model = "l";
}

abbrev hello : Request
hello = record {
  model_name = "gemini-flash";
  model_id = "g";
  messages = [];
  max_tokens = 10;
  temperature = 70;
}

abbrev thread : ℕ → List PastMessage
thread n = elim n [
  | ℕ.zero ↦ []
  | suc (k → more) ↦ PastMessage.row (some "user") (some (codes "hi")) ∷ more
]

abbrev outage : Text → Option Text
outage t = none

compression_drops_system_prompt_example :
    let ask_with = request outage (thread 31) (codes "go on") in
    let system = some (codes "You are an engineer.") in
    (older : List Message) × ((gemini_request (ask_with system)).system_instruction
      ≡ some (head_message (summarize outage older) older).content)
    × ((anthropic_payload (ask_with system)).0
        ≡ some (head_message (summarize outage older) older).content)
    × (gemini_request (ask_with system) ≡ gemini_request (ask_with none))
    × (anthropic_payload (ask_with system) ≡ anthropic_payload (ask_with none))
unfolding normalize strip is_space
compression_drops_system_prompt_example =
    compression_drops_system_prompt outage (thread 31) (codes "go on")
      (some (codes "You are an engineer.")) none (omega arith)

-- Every answer is "hi" and the clock stands at second 20.
abbrev steady : Env
steady = record {
  World = ℕ;
  clock = λ w. (seconds 20, w);
  call = λ req w. (replied (codes "hi") 4 1, w);
  sleep = λ n w. w;
}

abbrev no_costs : CostApi ℕ
no_costs = record {
  decide = λ user tier query w. (unavailable, w);
  deduct = λ user model tier i o w. (none, w);
}

abbrev query : Query
query = record {
  prompt = codes " hello ";
  user_id = "u";
  user_tier = "free";
  system_prompt = none;
  history = [];
  preferred_model = none;
  max_tokens = none;
  temperature = none;
  use_cost_router = false;
}

says : is_empty (strip query.prompt) ≡ false
unfolding strip is_space
says = refl

-- The circuit of gemini has tripped, so the second model of the chain answers.
openai_answers :
    (route steady no_costs settings query (seconds 20, gemini_down)).0
    ≡ ok (record {
      response = codes "hi";
      model = "gpt-4o-mini";
      provider = "openai";
      prompt_tokens = 4;
      completion_tokens = 1;
      total_tokens = 5;
      duration_ms = 0;
      cost_usd = 0;
      fallback_used = false;
      fallback_chain = "gpt-4o-mini" ∷ [];
    })
unfolding route strip is_space find_config is_open call_with_retry insert
openai_answers = refl

route-Answers_example :
    let sel = selection steady no_costs settings query (seconds 20) gemini_down in
    Answers steady no_costs settings query
      (seconds 20)
      gemini_down
      sel.0
      sel.1
      (route steady no_costs settings query (seconds 20, gemini_down))
route-Answers_example = route-Answers steady no_costs settings query (seconds 20) gemini_down says

route_live_example :
    (r : ModelResponse) × ((route steady no_costs settings query (seconds 20, gemini_down)).0
      ≡ ok r)
unfolding route find_config is_open call_with_retry insert
route_live_example =
    route_live steady no_costs settings query (seconds 20) gemini_down "gpt-4o" ("gpt-4o-mini" ∷ [])
      [] says refl (λ c w. (codes "hi", 4, 1, refl))

route_avoids-Tripped_example : ◌≢◌ {A = String} "openai" "gemini"
unfolding route strip is_space find_config is_open call_with_retry insert phase
route_avoids-Tripped_example =
    route_avoids-Tripped steady no_costs settings query (seconds 20) gemini_down "gemini"
      (seconds 12) (seconds 20)
      (record {
        response = codes "hi";
        model = "gpt-4o-mini";
        provider = "openai";
        prompt_tokens = 4;
        completion_tokens = 1;
        total_tokens = 5;
        duration_ms = 0;
        cost_usd = 0;
        fallback_used = false;
        fallback_chain = "gpt-4o-mini" ∷ [];
      })
      says (record { positive = omega arith; tripped = refl; within = omega arith })
      (λ w. omega arith) openai_answers
