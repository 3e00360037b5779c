-- ===== src/Agent/Run.antt =====
-- agent_loop.py, `Agent`: one run of an agent. What an agent is made with does not change in its run
-- and is a record apart from what it changes. Times are in microseconds and only read to be compared
-- with the timeout: how long a step takes is left out. Costs are natural numbers of a unit that is
-- small enough for all prices.
pub mod Loop
use ai_chat_bot_v.Base.{
  ℕ, ◌+◌, ◌==◌, Bool, true, false, not, Option, none, some, List, [], ◌∷◌, ◌++◌, map, String,
  str_eq, length, take_last, any, ltb, if◌then◌else◌,
}
use ai_chat_bot_v.Base.Text.{Text, codes, strip, is_empty}
use ai_chat_bot_v.Base.Text.Decimal.{decimal}
use ai_chat_bot_v.Agent.Prompts.{
  Role, user, assistant, system, Message, build_system_prompt, build_user_prompt, detect_completion,
  extract_final_answer,
}
use ai_chat_bot_v.Tools.Calls.{Syntax, ToolCall, parse_tool_calls}
use ai_chat_bot_v.Tools.Registry.{ToolResult, Tools, ToolState, failed, execute, list_tools}

pub data AgentStatus : Type 0 where
  pending : AgentStatus
  running : AgentStatus
  completed : AgentStatus
  failure : AgentStatus
  timeout : AgentStatus
  cancelled : AgentStatus

pub record AgentStep (syntax : Syntax) : Type 0 where
  pub iteration : ℕ
  pub thought : Text
  pub tool_calls : List (ToolCall syntax)
  pub tool_results : List ToolResult
  pub tokens_used : ℕ

pub record AgentResult (syntax : Syntax) : Type 0 where
  pub objective : Text
  pub result_status : AgentStatus
  pub final_answer : Option Text
  pub result_steps : List (AgentStep syntax)
  pub total_iterations : ℕ
  pub result_tokens : ℕ
  pub result_cost : ℕ
  pub error : Option Text

-- What comes of a call of the model under the timeout of an iteration.
pub data Reply : Type 0 where
  replied : Text → (prompt_tokens completion_tokens cost : ℕ) → Reply
  timed_out : Reply
  failed_call : Text → Reply

-- What a run uses: the clock, the model router, the callback for each step, the analytics, and
-- `str.lower`. While the model answers and in the callback others may cancel the run, which the
-- Boolean says.
pub record Host (syntax : Syntax) : Type 1 where
  pub World : Type 0
  pub time : World → ℕ × World
  pub get_model_router : World → Option Text × World
  pub route :
      (prompt system_prompt : Text) → (user_id user_tier : String) → World → (Reply × Bool) × World
  pub on_step : AgentStep syntax → World → Bool × World
  pub track_agent_run : AgentStatus → (iterations tokens cost : ℕ) → World → World
  pub lower : Text → Text
  -- What `str` makes of the error that `parse_tool_calls` raises.
  pub parse_error : Text → Text

-- What an agent is made with.
pub record Agent : Type 0 where
  pub user_id : String
  pub user_tier : String
  pub max_iterations : ℕ
  pub total_timeout : ℕ
  pub iteration_timeout : ℕ
  pub memory_limit : ℕ
  pub allowed_tools : List String

-- `x or default` of a number, and of a list.
abbrev or_number : Option ℕ → ℕ → ℕ
or_number none d = d
or_number (some n) d = if n == 0 then d else n

abbrev or_list : Option (List String) → List String → List String
or_list none d = d
or_list (some []) d = d
or_list (some (x ∷ xs)) d = x ∷ xs

-- `Agent.__init__`, with the settings of the program and the tools that are registered.
unfoldable pub new_agent :
    (agent_max_iterations agent_timeout : ℕ) (registered : List String)
    → (user_id user_tier : String) (max_iterations total_timeout : Option ℕ)
    → (iteration_timeout memory_limit : ℕ) (allowed_tools : Option (List String)) → Agent
new_agent agent_max agent_timeout registered id tier iterations total iteration limit allowed =
    record {
      user_id = id;
      user_tier = tier;
      max_iterations = or_number iterations agent_max;
      total_timeout = or_number total agent_timeout;
      iteration_timeout = iteration;
      memory_limit = limit;
      allowed_tools = or_list allowed registered;
    }

-- What a run changes of its agent.
pub record RunState (syntax : Syntax) : Type 0 where
  pub memory : List Message
  pub steps : List (AgentStep syntax)
  pub total_tokens : ℕ
  pub total_cost : ℕ
  pub status : AgentStatus
  pub is_cancelled : Bool

-- `xs[-n:]`, which is the whole list for 0.
abbrev pub last_items {ℓ} : {A : Type ℓ} → ℕ → List A → List A
last_items n xs = if n == 0 then xs else take_last n xs

unfoldable pub windowed : (memory_limit : ℕ) → List Message → List Message
windowed memory_limit ms = if ltb memory_limit (length ms) then last_items memory_limit ms else ms

-- The message that a tool's result leaves.
abbrev tool_message : String → ToolResult → Text
tool_message tool r =
    if r.success
    then codes "Tool '" ++ codes tool ++ codes "' result: " ++ r.output
    else codes "Tool '"
      ++ codes tool
      ++ codes "' failed: "
      ++ (elim r.error [ none ↦ codes "None" | some e ↦ e ])

module _ {syntax : Syntax} where
  abbrev pub new_run : RunState syntax
  new_run = record {
    memory = [];
    steps = [];
    total_tokens = 0;
    total_cost = 0;
    status = pending;
    is_cancelled = false;
  }

  unfoldable pub cancel : RunState syntax → RunState syntax
  cancel s = record s { status = cancelled; is_cancelled = true }

  abbrev pub record_step : AgentStep syntax → RunState syntax → RunState syntax
  record_step step s = record s { steps = s.steps ++ step ∷ [] }

  abbrev pub cancel_if : Bool → RunState syntax → RunState syntax
  cancel_if b s = if b then cancel s else s

  unfoldable pub add_memory : (memory_limit : ℕ) → Role → Text → RunState syntax → RunState syntax
  unfolding windowed
  add_memory memory_limit role content s = record s {
    memory = windowed memory_limit (s.memory ++ record { role = role; content = content } ∷ []);
  }

  -- The loop over the calls and their results.
  unfoldable pub remember_results :
      (memory_limit : ℕ)
      → List (ToolCall syntax)
      → List ToolResult
      → RunState syntax
      → RunState syntax
  unfolding add_memory
  remember_results memory_limit (c ∷ cs) (r ∷ rs) s =
      remember_results memory_limit cs rs (add_memory memory_limit system (tool_message c.tool r) s)
  remember_results memory_limit [] rs s = s
  remember_results memory_limit (c ∷ cs) [] s = s

abbrev pub not_whitelisted : String → ToolResult
not_whitelisted tool =
    failed tool (codes "Tool '" ++ codes tool ++ codes "' is not available for this agent")
