-- ===== src/Agent/Run/Loop/Budget.antt =====
-- What a run of an agent does to the world, step by step: a budget of calls of the model that every
-- turn draws on, and what the tools that are not on the list of the agent cannot do.
use ai_chat_bot_v.Base.{
  ℕ, zero, suc, ◌+◌, ◌≡◌, refl, Bool, true, false, Option, none, some, List, [], ◌∷◌, String,
  Bool-cases, inl, inr,
}
use ai_chat_bot_v.Base.Dict.{lookup}
use ai_chat_bot_v.Base.Text.{Text, strip, is_empty}
use ai_chat_bot_v.Agent.Run.{
  AgentStatus, failure, AgentStep, AgentResult, Reply, replied, timed_out, failed_call, Host, Agent,
}
use ai_chat_bot_v.Agent.Run.Loop.{
  Turn, next, answered, broken, Loop, is_allowed, call_if, execute_call, execute_tools, finish_turn,
  act_on, act, after_reply, turn, after_turn, guarded, make_result, iterate, run, run_with,
}
use ai_chat_bot_v.Tools.Calls.{Syntax, ToolCall, parse_tool_calls}
use ai_chat_bot_v.Tools.Limit.{check_rate_limit}
use ai_chat_bot_v.Tools.Registry.{
  ToolDefinition, Tools, ToolState, execute, after_check, execute_found,
}

-- A property of the world under a budget: a call of the model takes one from the budget, and all else
-- that a run does keeps it.
pub record Metered {syntax : Syntax} (host : Host syntax) (tools : Tools syntax.Json host.World)
    (agent : Agent) (P : ℕ → host.World → Type 0) : Type 0 where
  pub spent : (b : ℕ) (w : host.World) → P b w → P 0 w
  pub time_keeps : (b : ℕ) (w : host.World) → P b w → P b (host.time w).1
  pub router_keeps : (b : ℕ) (w : host.World) → P b w → P b (host.get_model_router w).1
  pub route_spends :
      (b : ℕ) (prompt system : Text) (id tier : String) (w : host.World)
      → P (suc b) w
      → P b (host.route prompt system id tier w).1
  pub step_keeps :
      (b : ℕ) (step : AgentStep syntax) (w : host.World) → P b w → P b (host.on_step step w).1
  pub track_keeps :
      (b : ℕ) (status : AgentStatus) (i tokens cost : ℕ) (w : host.World)
      → P b w
      → P b (host.track_agent_run status i tokens cost w)
  -- The tools on the list of the agent.
  pub tool_keeps :
      (b : ℕ) (tool : String) (d : ToolDefinition syntax.Json host.World) (p : syntax.Json)
      (w : host.World)
      → is_allowed host tools agent tool ≡ true
      → lookup tool tools ≡ some d
      → P b w
      → P b (d.fn p w).1

module _ {syntax : Syntax} (host : Host syntax) (tools : Tools syntax.Json host.World)
    (agent : Agent) (P : ℕ → host.World → Type 0) (m : Metered host tools agent P) where
  after_check-P :
      (b : ℕ) (ok : Bool) (name : String) (d : ToolDefinition syntax.Json host.World)
      (p : syntax.Json) (st : ToolState host.World)
      → P b (d.fn p st.1).1
      → P b st.1
      → P b (after_check ok name d p st).1.1
  after_check-P b true name d p st called h = called
  after_check-P b false name d p st called h = h

  execute_found-P :
      (b : ℕ) (o : Option (ToolDefinition syntax.Json host.World)) (name : String) (p : syntax.Json)
      (now : ℕ) (st : ToolState host.World)
      → is_allowed host tools agent name ≡ true
      → lookup name tools ≡ o
      → P b st.1
      → P b (execute_found o name p agent.user_id now st).1.1
  execute_found-P b none name p now st allowed found h = h
  execute_found-P b (some d) name p now (counts, w) allowed found h =
      let check = check_rate_limit name agent.user_id d.rate_limit_per_minute now counts in
      after_check-P b check.0 name d p (check.1, w) (m.tool_keeps b name d p w allowed found h) h

  call_if-P :
      (b : ℕ) (ok : Bool) (call : ToolCall syntax) (st : ToolState host.World)
      → is_allowed host tools agent call.tool ≡ ok
      → P b st.1
      → P b (call_if host tools agent ok call st).1.1
  unfolding execute
  call_if-P b false call st e h = h
  call_if-P b true call (counts, w) e h =
      execute_found-P b (lookup call.tool tools) call.tool call.parameters (host.time w).0
        (counts, (host.time w).1) e refl (m.time_keeps b w h)

  execute_call-P :
      (b : ℕ) (call : ToolCall syntax) (st : ToolState host.World)
      → P b st.1
      → P b (execute_call host tools agent call st).1.1
  unfolding execute_call
  execute_call-P b call st h = call_if-P b (is_allowed host tools agent call.tool) call st refl h

  execute_tools-P :
      (b : ℕ) (calls : List (ToolCall syntax)) (st : ToolState host.World)
      → P b st.1
      → P b (execute_tools host tools agent calls st).1.1
  unfolding execute_tools
  execute_tools-P b [] st h = h
  execute_tools-P b (call ∷ calls) st h =
      execute_tools-P b calls (execute_call host tools agent call st).1 (execute_call-P b call st h)

  finish_turn-P :
      (b : ℕ) (thought : Text) (step : AgentStep syntax) (st : Loop host tools agent)
      → P b st.1.1
      → P b (finish_turn host tools agent thought step st).1.1.1
  unfolding finish_turn
  finish_turn-P b thought step (s, (counts, w)) h = m.step_keeps b step w h

  act_on-P :
      (b : ℕ) (o : Option (List (ToolCall syntax))) (iteration : ℕ) (thought : Text) (tokens : ℕ)
      (st : Loop host tools agent)
      → P b st.1.1
      → P b (act_on host tools agent o iteration thought tokens st).1.1.1
  act_on-P b none iteration thought tokens st h = h
  act_on-P b (some calls) iteration thought tokens (s, st) h =
      finish_turn-P b thought _ _ (execute_tools-P b calls st h)

  after_reply-P :
      (b iteration : ℕ) (reply : Reply) (st : Loop host tools agent)
      → P b st.1.1
      → P b (after_reply host tools agent iteration reply st).1.1.1
  unfolding after_reply act
  after_reply-P b iteration (replied thought p c cost) (s, st) h =
      act_on-P b (parse_tool_calls syntax thought) iteration thought (p + c) _ h
  after_reply-P b iteration timed_out (s, st) h = h
  after_reply-P b iteration (failed_call error) (s, st) h = h

  turn-P :
      (b iteration : ℕ) (objective : Text) (st : Loop host tools agent)
      → P (suc b) st.1.1
      → P b (turn host tools agent iteration objective st).1.1.1
  unfolding turn
  turn-P b iteration objective (s, (counts, w)) h =
      after_reply-P b iteration _ _ (m.route_spends b _ _ agent.user_id agent.user_tier w h)

  make_result-P :
      (b : ℕ) (objective : Text) (status : AgentStatus) (answer error : Option Text)
      (st : Loop host tools agent)
      → P b st.1.1
      → P 0 (make_result host tools agent objective status answer error st).1.1.1
  unfolding make_result
  make_result-P b objective status answer error (s, (counts, w)) h =
      m.track_keeps 0 status _ s.total_tokens s.total_cost w (m.spent b w h)

  after_turn-P :
      (b : ℕ) (t : Turn) (objective : Text) (rest : AgentResult syntax × Loop host tools agent)
      (st : Loop host tools agent)
      → P b st.1.1
      → P 0 rest.1.1.1
      → P 0 (after_turn host tools agent t objective rest st).1.1.1
  after_turn-P b next objective rest st h later = later
  after_turn-P b (answered answer) objective rest st h later = make_result-P b objective _ _ _ st h
  after_turn-P b (broken error) objective rest st h later = make_result-P b objective _ _ _ st h

  guarded-P :
      (b : ℕ) (is_cancelled is_late : Bool) (objective : Text) (unread read : Loop host tools agent)
      (rest : AgentResult syntax × Loop host tools agent)
      → P b unread.1.1
      → P b read.1.1
      → P 0 rest.1.1.1
      → P 0 (guarded host tools agent is_cancelled is_late objective unread read rest).1.1.1
  guarded-P b true is_late objective unread read rest h timed later =
      make_result-P b objective _ _ _ unread h
  guarded-P b false true objective unread read rest h timed later =
      make_result-P b objective _ _ _ read timed
  guarded-P b false false objective unread read rest h timed later = later

  iterate-P :
      (remaining iteration start : ℕ) (objective : Text) (st : Loop host tools agent)
      → P remaining st.1.1
      → P 0 (iterate host tools agent remaining iteration start objective st).1.1.1
  unfolding iterate
  iterate-P zero iteration start objective st h = make_result-P 0 objective failure none none st h
  iterate-P (suc n) iteration start objective (s, (counts, w)) h =
      let timed = m.time_keeps (suc n) w h in
      let after = turn-P n iteration objective (s, (counts, (host.time w).1)) timed in
      guarded-P (suc n) s.is_cancelled _ objective _ _ _ h timed
        (after_turn-P n _ objective _ _ after (iterate-P n (suc iteration) start objective _ after))

  run_with-P :
      (problem : Option Text) (start : ℕ) (objective : Text) (st : Loop host tools agent)
      → P agent.max_iterations st.1.1
      → P 0 (run_with host tools agent problem start objective st).1.1.1
  run_with-P none start objective st h = iterate-P agent.max_iterations 1 start objective st h
  run_with-P (some error) start objective st h =
      make_result-P agent.max_iterations objective _ _ _ st h

  -- What holds of the world with a budget of as many calls of the model as there are iterations holds
  -- of it with no budget after a run.
  pub run-P :
      (objective : Text) (st : Loop host tools agent)
      → P agent.max_iterations st.1.1
      → P 0 (run host tools agent objective st).1.1.1
  unfolding run
  run-P objective (s, (counts, w)) h = elim (Bool-cases (is_empty (strip objective))) [
    | inl blank ↦ rw blank (m.spent agent.max_iterations w h)
    | inr goal ↦ rw goal (
        run_with-P _ _ (strip objective) _ (
          m.router_keeps agent.max_iterations (host.time w).1
            (m.time_keeps agent.max_iterations w h)))
  ]
