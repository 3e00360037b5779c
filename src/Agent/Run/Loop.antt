-- ===== src/Agent/Run/Loop.antt =====
-- agent_loop.py, `Agent._execute_tools`, `Agent.run` and what they call: a turn of the loop, and the
-- loop over the iterations.
pub mod Budget
pub mod Limits
pub mod Sound
pub mod Records
use ai_chat_bot_v.Base.{
  ℕ, zero, suc, ◌+◌, Bool, true, false, not, Option, none, some, List, [], ◌∷◌, ◌++◌, String,
  str_eq, length, any, ltb, seconds, if◌then◌else◌,
}
use ai_chat_bot_v.Base.Text.{Text, codes, strip, is_empty}
use ai_chat_bot_v.Base.Text.Decimal.{decimal}
use ai_chat_bot_v.Agent.Prompts.{
  Role, user, assistant, build_system_prompt, build_user_prompt, detect_completion,
  extract_final_answer,
}
use ai_chat_bot_v.Agent.Run.{
  AgentStatus, running, completed, failure, timeout, cancelled, AgentStep, AgentResult, Reply,
  replied, timed_out, failed_call, Host, Agent, RunState, cancel, cancel_if, record_step,
  add_memory, remember_results, not_whitelisted,
}
use ai_chat_bot_v.Tools.Calls.{Syntax, ToolCall, parse_tool_calls}
use ai_chat_bot_v.Tools.Registry.{ToolResult, Tools, ToolState, execute}

-- How a turn of the loop ends: with the next one, with an answer, or with an error.
pub data Turn : Type 0 where
  next : Turn
  answered : Text → Turn
  broken : Text → Turn

module _ {syntax : Syntax} (host : Host syntax) (tools : Tools syntax.Json host.World)
    (agent : Agent) where
  open host use {World}

  abbrev pub Loop : Type 0
  Loop = RunState syntax × ToolState World

  abbrev pub is_allowed : String → Bool
  is_allowed tool = any (str_eq tool) agent.allowed_tools

  -- A call whose tool is on the list of the agent, or not.
  abbrev pub call_if : Bool → ToolCall syntax → ToolState World → ToolResult × ToolState World
  call_if false call st = (not_whitelisted call.tool, st)
  call_if true call (counts, w) =
      let (now, w') = host.time w in
      execute tools call.tool call.parameters agent.user_id now (counts, w')

  -- One call of a thought.
  unfoldable pub execute_call : ToolCall syntax → ToolState World → ToolResult × ToolState World
  unfolding execute
  execute_call call st = call_if (is_allowed call.tool) call st

  unfoldable pub execute_tools :
      List (ToolCall syntax) → ToolState World → List ToolResult × ToolState World
  unfolding execute_call
  execute_tools [] st = ([], st)
  execute_tools (call ∷ calls) st =
      let (r, st') = execute_call call st in
      let (rs, st'') = execute_tools calls st' in (r ∷ rs, st'')

  abbrev step_of : ℕ → Text → List (ToolCall syntax) → List ToolResult → ℕ → AgentStep syntax
  step_of iteration thought calls results tokens = record {
    iteration = iteration;
    thought = thought;
    tool_calls = calls;
    tool_results = results;
    tokens_used = tokens;
  }

  -- The end of a turn: the callback, and the check of completion.
  unfoldable pub finish_turn : Text → AgentStep syntax → Loop → Turn × Loop
  unfolding cancel detect_completion extract_final_answer
  finish_turn thought step (s, (counts, w)) =
      let (is_cancelled, w') = host.on_step step w in
      let turn =
        if detect_completion host.lower thought
        then answered (extract_final_answer host.lower thought)
        else next in
      (turn, (cancel_if is_cancelled (record_step step s), (counts, w')))

  -- The calls that are parsed, or that parsing raises.
  abbrev pub act_on :
      Option (List (ToolCall syntax)) → (iteration : ℕ) → Text → (tokens : ℕ) → Loop → Turn × Loop
  act_on none iteration thought tokens st = (broken (host.parse_error thought), st)
  act_on (some calls) iteration thought tokens (s, st) =
      let (results, st') = execute_tools calls st in
      finish_turn thought (step_of iteration thought calls results tokens)
        (remember_results agent.memory_limit calls results s, st')

  -- The tools that a thought calls.
  unfoldable pub act : (iteration : ℕ) → Text → (tokens : ℕ) → Loop → Turn × Loop
  unfolding finish_turn execute_tools remember_results parse_tool_calls
  act iteration thought tokens st =
      act_on (parse_tool_calls syntax thought) iteration thought tokens st

  -- What the reply of the model leads to.
  unfoldable pub after_reply : (iteration : ℕ) → Reply → Loop → Turn × Loop
  unfolding act add_memory
  after_reply iteration (replied thought prompt_tokens completion_tokens cost) (s, st) =
      let tokens = prompt_tokens + completion_tokens in
      act iteration thought tokens (
        add_memory agent.memory_limit assistant thought
            (record s { total_tokens = s.total_tokens + tokens; total_cost = s.total_cost + cost }),
        st,
      )
  after_reply iteration timed_out (s, st) = (
    next,
    (
      record_step
          (step_of iteration
            (codes "[TIMEOUT] Iteration "
              ++ decimal iteration
              ++ codes " exceeded "
              ++ decimal agent.iteration_timeout
              ++ codes "s timeout")
            [] [] 0)
          s,
      st,
    ),
  )
  after_reply iteration (failed_call error) (s, st) = (broken error, (s, st))

  -- `_think`, and the turn from there on.
  unfoldable pub turn : (iteration : ℕ) → (objective : Text) → Loop → Turn × Loop
  unfolding after_reply build_system_prompt build_user_prompt
  turn iteration objective (s, (counts, w)) =
      let ((reply, is_cancelled), w') =
        host.route (build_user_prompt objective s.memory iteration agent.max_iterations)
          (build_system_prompt tools agent.allowed_tools) agent.user_id agent.user_tier w in
      after_reply iteration reply (cancel_if is_cancelled s, (counts, w'))

  -- `_make_result`, with the log of the analytics.
  unfoldable pub make_result :
      (objective : Text)
      → AgentStatus
      → (final_answer error : Option Text) → Loop
      → AgentResult syntax × Loop
  make_result objective status final_answer error (s, (counts, w)) = (
    record {
      objective = objective;
      result_status = status;
      final_answer = final_answer;
      result_steps = s.steps;
      total_iterations = length s.steps;
      result_tokens = s.total_tokens;
      result_cost = s.total_cost;
      error = error;
    },
    (
      record s { status = status },
      (counts, host.track_agent_run status (length s.steps) s.total_tokens s.total_cost w),
    ),
  )

  -- What the end of a turn leads to; `rest` is what the iterations that follow give.
  abbrev pub after_turn :
      Turn
      → (objective : Text) → (rest : AgentResult syntax × Loop) → Loop
      → AgentResult syntax × Loop
  after_turn next objective rest st = rest
  after_turn (answered answer) objective rest st =
      make_result objective completed (some answer) none st
  after_turn (broken error) objective rest st = make_result objective failure none (some error) st

  -- The checks that an iteration begins with, of the cancellation and of the total timeout; the clock
  -- is read in between.
  abbrev pub guarded :
      (is_cancelled is_late : Bool) (objective : Text) (unread read : Loop)
      → (rest : AgentResult syntax × Loop) → AgentResult syntax × Loop
  guarded true is_late objective unread read rest =
      make_result objective cancelled none (some (codes "Agent run was cancelled")) unread
  guarded false true objective unread read rest =
      make_result objective timeout none
        (some (codes "Total timeout exceeded (" ++ decimal agent.total_timeout ++ codes "s)")) read
  guarded false false objective unread read rest = rest

  -- The iterations that are left, from one on.
  unfoldable pub iterate :
      (remaining iteration start : ℕ) (objective : Text) → Loop → AgentResult syntax × Loop
  unfolding turn make_result
  iterate zero iteration start objective st =
      make_result objective failure
        (some (codes "Max iterations reached without completing the objective."))
        (some (codes "Max iterations exceeded")) st
  iterate (suc remaining) iteration start objective (s, (counts, w)) =
      let (now, w') = host.time w in
      let (t, st') = turn iteration objective (s, (counts, w')) in
      let rest = iterate remaining (suc iteration) start objective st' in
      guarded s.is_cancelled (ltb (start + seconds agent.total_timeout) now) objective
        (s, (counts, w)) (s, (counts, w')) (after_turn t objective rest st')

  -- What the model router that is got, or the problem in getting it, leads to.
  abbrev pub run_with :
      Option Text → (start : ℕ) (objective : Text) → Loop → AgentResult syntax × Loop
  run_with (some error) start objective st =
      make_result objective failure none (some (codes "Model router unavailable: " ++ error)) st
  run_with none start objective st = iterate agent.max_iterations 1 start objective st

  -- `run`: nothing where the objective is blank, for which a ValueError is raised.
  unfoldable pub run : (objective : Text) → Loop → Option (AgentResult syntax) × Loop
  unfolding iterate add_memory
  run objective (s, (counts, w)) =
      let goal = strip objective in
      let (start, w') = host.time w in
      let begun = add_memory agent.memory_limit user goal (record s { status = running }) in
      let (problem, w'') = host.get_model_router w' in
      let (result, st) = run_with problem start goal (begun, (counts, w'')) in
      if is_empty goal then (none, (s, (counts, w))) else (some result, st)
