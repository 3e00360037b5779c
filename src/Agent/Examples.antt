-- ===== src/Agent/Examples.antt =====
-- Runs of an agent with a small host: a model that asks for a tool and then answers.
use mathlib.Core.Path.{subst}
use mathlib.Core.Option.{some-injective}
use ai_chat_bot_v.Base.{
  ℕ, ◌+◌, ◌≤◌, ◌≡◌, refl, sym, Bool, true, false, ◌&&◌, Option, none, some, List, [], ◌∷◌, map,
  String, str_eq, any, some-none, eq_iff, leb, arith, if◌then◌else◌, ◌==◌,
}
use ai_chat_bot_v.Base.Text.{Text, codes, strip, is_empty, is_space}
use ai_chat_bot_v.Agent.Run.{AgentResult, Reply, replied, Host, Agent, new_run, new_agent}
use ai_chat_bot_v.Agent.Run.Loop.{run}
use ai_chat_bot_v.Agent.Run.Loop.Records.{Recorded, run_records}
use ai_chat_bot_v.Agent.Run.Loop.Limits.{Asks, Kept, run_ends, run_whitelist}
use ai_chat_bot_v.Tools.Calls.{Syntax}
use ai_chat_bot_v.Tools.Registry.{output, ToolDefinition, Tools}

-- A text that begins with a question mark asks for the weather.
abbrev marked : Text → List (String × Text)
marked [] = []
marked (c ∷ t) = if c == 63 then ("weather", t) ∷ [] else []

abbrev syntax : Syntax
syntax = record {
  Json = Text;
  loads = λ t. none;
  get = λ key j. none;
  is_true = λ j. true;
  name = λ j. "";
  text = λ t. t;
  empty_dict = [];
  marked_calls = marked;
  blocks = λ t. [];
}

-- How often the model is asked, and how often the weather is looked up.
record Seen : Type 0 where
  asked : ℕ
  looked_up : ℕ

abbrev answer_at : ℕ → Reply
answer_at n =
    if n == 0
    then replied (codes "?Raipur") 10 5 1
    else replied (codes "FINAL ANSWER: sunny ") 20 5 1

abbrev lower : ℕ → ℕ
lower c = if leb 65 c && leb c 90 then c + 32 else c

abbrev host : Host syntax
host = record {
  World = Seen;
  time = λ w. (1_000_000, w);
  get_model_router = λ w. (none, w);
  route = λ prompt system id tier w. ((answer_at w.asked, false), record w { asked = w.asked + 1 });
  on_step = λ step w. (false, w);
  track_agent_run = λ status i tokens cost w. w;
  lower = map lower;
  parse_error = λ t. [];
}

abbrev look_up : ToolDefinition Text Seen
look_up = record {
  description = "Get the weather.";
  properties = [];
  fn = λ p w. (output (codes "sunny"), record w { looked_up = w.looked_up + 1 });
  enabled = true;
  requires_network = true;
  rate_limit_per_minute = 15;
}

abbrev tools : Tools Text Seen
tools = ("weather", look_up) ∷ []

abbrev agent : List String → Agent
agent allowed = record {
  user_id = "ann";
  user_tier = "free";
  max_iterations = 2;
  total_timeout = 120;
  iteration_timeout = 60;
  memory_limit = 20;
  allowed_tools = allowed;
}

-- An empty list of tools gives all of them.
empty_list :
    new_agent 2 120 ("weather" ∷ []) "ann" "free" none none 60 20 (some []) ≡ agent ("weather" ∷ [])
unfolding new_agent
empty_list = refl

abbrev fresh : Seen
fresh = record { asked = 0; looked_up = 0 }

abbrev answer_of : Option (AgentResult syntax) → Option Text
answer_of none = none
answer_of (some r) = r.final_answer

-- The agent looks the weather up and answers.
run_answers :
    answer_of
      (run host tools (agent ("weather" ∷ [])) (codes "Is it sunny?") (new_run, ([], fresh))).0
    ≡ some (codes "sunny")
unfolding run is_space
run_answers = refl

abbrev question : Text
question = codes "Is it sunny?"

question_asks : is_empty (strip question) ≡ false
unfolding strip is_space
question_asks = refl

abbrev all_tools : Agent
all_tools = agent ("weather" ∷ [])

run_records_example :
    (r : AgentResult syntax) × ((run host tools all_tools question (new_run, ([], fresh))).0
      ≡ some r)
    × Recorded 20 2 r (run host tools all_tools question (new_run, ([], fresh))).1.0
run_records_example = run_records host tools all_tools question [] fresh (omega arith) question_asks

-- The one tool that there is.
only_tool :
    (b : Bool) (d : ToolDefinition Text Seen)
    → (if b then some look_up else none) ≡ some d
    → look_up ≡ d
only_tool true d e = some-injective look_up d e
only_tool false d e = absurd (some-none (sym e))

asks : Asks host tools (λ w. w.asked)
asks = record {
  route_once = λ prompt system id tier w. omega arith;
  time_same = λ w. refl;
  router_same = λ w. refl;
  step_same = λ step w. refl;
  track_same = λ status i tokens cost w. refl;
  tool_same = λ tool d p w found.
      subst (λ x. (x.fn p w).1.asked ≡ w.asked) (only_tool (str_eq tool "weather") d found) refl;
}

run_ends_example :
    ((r : AgentResult syntax) × ((run host tools all_tools question (new_run, ([], fresh))).0
        ≡ some r))
    × ((run host tools all_tools question (new_run, ([], fresh))).1.1.1.asked ≤ 0 + 2)
run_ends_example = run_ends host tools all_tools (λ w. w.asked) question [] fresh asks question_asks

-- An agent without the tool that looks the weather up.
is_one : (b : Bool) → (if b then true else false) ≡ true → b ≡ true
is_one b e = ground (arith, e)

-- No tool is the weather and the calculator.
one_name :
    (tool : String) → any (str_eq tool) ("calculator" ∷ []) ≡ true → str_eq tool "weather" ≡ false
one_name tool e =
    subst (λ t. str_eq t "weather" ≡ false)
      (sym ((eq_iff tool "calculator").0 (is_one (str_eq tool "calculator") e))) refl

kept : Kept host tools (agent ("calculator" ∷ [])) (λ w. w.looked_up ≡ 0)
kept = record {
  time_kept = λ w h. h;
  router_kept = λ w h. h;
  route_kept = λ prompt system id tier w h. h;
  step_kept = λ step w h. h;
  track_kept = λ status i tokens cost w h. h;
  tool_kept = λ tool d p w allowed found h. absurd (
      some-none (
        sym (
          subst (λ b. (if b then some look_up else none) ≡ some d) (one_name tool allowed) found)));
}

run_whitelist_example :
    (run host tools (agent ("calculator" ∷ [])) question (new_run, ([], fresh))).1.1.1.looked_up ≡ 0
run_whitelist_example =
    run_whitelist host tools (agent ("calculator" ∷ [])) (λ w. w.looked_up ≡ 0) question new_run []
      fresh kept refl
