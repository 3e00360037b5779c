-- ===== src/Agent/Run/Loop/Limits.antt =====
-- What limits a run of an agent: the number of its iterations, and the list of its tools.
use ai_chat_bot_v.Base.{ℕ, suc, ◌+◌, ◌≤◌, ◌≡◌, ap, true, false, some, String, arith}
use ai_chat_bot_v.Base.Dict.{lookup}
use ai_chat_bot_v.Base.Text.{Text, strip, is_empty}
use ai_chat_bot_v.Agent.Run.{AgentStatus, AgentStep, AgentResult, Host, Agent, RunState, new_run}
use ai_chat_bot_v.Agent.Run.Loop.{is_allowed, run}
use ai_chat_bot_v.Agent.Run.Loop.Budget.{Metered, run-P}
use ai_chat_bot_v.Agent.Run.Loop.Records.{begun, run_begun}
use ai_chat_bot_v.Tools.Calls.{Syntax}
use ai_chat_bot_v.Tools.Limit.{CallCounts}
use ai_chat_bot_v.Tools.Registry.{ToolDefinition, Tools}

-- A count, in the world, of the calls of the model: only the model router adds to it, one at most for
-- a call.
pub record Asks {syntax : Syntax} (host : Host syntax) (tools : Tools syntax.Json host.World)
    (asked : host.World → ℕ) : Type 0 where
  pub route_once :
      (prompt system : Text) (id tier : String) (w : host.World)
      → asked (host.route prompt system id tier w).1 ≤ suc (asked w)
  pub time_same : (w : host.World) → asked (host.time w).1 ≡ asked w
  pub router_same : (w : host.World) → asked (host.get_model_router w).1 ≡ asked w
  pub step_same :
      (step : AgentStep syntax) (w : host.World) → asked (host.on_step step w).1 ≡ asked w
  pub track_same :
      (status : AgentStatus) (i tokens cost : ℕ) (w : host.World)
      → asked (host.track_agent_run status i tokens cost w) ≡ asked w
  pub tool_same :
      (tool : String) (d : ToolDefinition syntax.Json host.World) (p : syntax.Json) (w : host.World)
      → lookup tool tools ≡ some d
      → asked (d.fn p w).1 ≡ asked w

Asks-Metered :
    {syntax : Syntax} (host : Host syntax) (tools : Tools syntax.Json host.World) (agent : Agent)
    (asked : host.World → ℕ) (most : ℕ)
    → Asks host tools asked
    → Metered host tools agent (λ b w. asked w + b ≤ most)
Asks-Metered host tools agent asked most a = record {
  spent = λ b w h. omega (arith, h);
  time_keeps = λ b w h. omega (arith, h, a.time_same w);
  router_keeps = λ b w h. omega (arith, h, a.router_same w);
  route_spends =
      λ b prompt system id tier w h. omega (arith, h, a.route_once prompt system id tier w);
  step_keeps = λ b step w h. omega (arith, h, a.step_same step w);
  track_keeps = λ b status i tokens cost w h. omega (arith, h, a.track_same status i tokens cost w);
  tool_keeps = λ b tool d p w allowed found h. omega (arith, h, a.tool_same tool d p w found);
}

-- A run of a fresh agent on an objective that is not blank ends with a result, after no more calls of the model than the agent has iterations.
pub run_ends :
    {syntax : Syntax} (host : Host syntax) (tools : Tools syntax.Json host.World) (agent : Agent)
    (asked : host.World → ℕ) (objective : Text) (counts : CallCounts) (w : host.World)
    → Asks host tools asked
    → is_empty (strip objective) ≡ false
    → ((r : AgentResult syntax) × ((run host tools agent objective (new_run, (counts, w))).0
          ≡ some r))
      × (asked (run host tools agent objective (new_run, (counts, w))).1.1.1
          ≤ asked w + agent.max_iterations)
run_ends host tools agent asked objective counts w a goal =
    let e = run_begun host tools agent objective counts w goal in
    let most = asked w + agent.max_iterations in
    let spent : asked (run host tools agent objective (new_run, (counts, w))).1.1.1 + 0 ≤ most =
      run-P host tools agent (λ b w. asked w + b ≤ most)
        (Asks-Metered host tools agent asked most a) objective (new_run, (counts, w))
        (omega arith) in
    (((begun host tools agent objective counts w).0, ap (λ x. x.0) e), omega (arith, spent))

-- What the clock, the model router, the callback, the analytics and the tools on the list of the agent
-- do not change.
pub record Kept {syntax : Syntax} (host : Host syntax) (tools : Tools syntax.Json host.World)
    (agent : Agent) (Q : host.World → Type 0) : Type 0 where
  pub time_kept : (w : host.World) → Q w → Q (host.time w).1
  pub router_kept : (w : host.World) → Q w → Q (host.get_model_router w).1
  pub route_kept :
      (prompt system : Text) (id tier : String) (w : host.World)
      → Q w
      → Q (host.route prompt system id tier w).1
  pub step_kept : (step : AgentStep syntax) (w : host.World) → Q w → Q (host.on_step step w).1
  pub track_kept :
      (status : AgentStatus) (i tokens cost : ℕ) (w : host.World)
      → Q w
      → Q (host.track_agent_run status i tokens cost w)
  pub tool_kept :
      (tool : String) (d : ToolDefinition syntax.Json host.World) (p : syntax.Json) (w : host.World)
      → is_allowed host tools agent tool ≡ true
      → lookup tool tools ≡ some d
      → Q w
      → Q (d.fn p w).1

-- Whatever the other tools do, and whatever calls of them the model asks for: what the tools on the
-- list of an agent keep, a run of the agent keeps, as long as the model, the clock, the callback and
-- the analytics keep it too.
pub run_whitelist :
    {syntax : Syntax} (host : Host syntax) (tools : Tools syntax.Json host.World) (agent : Agent)
    (Q : host.World → Type 0) (objective : Text) (s : RunState syntax) (counts : CallCounts)
    (w : host.World)
    → Kept host tools agent Q
    → Q w
    → Q (run host tools agent objective (s, (counts, w))).1.1.1
run_whitelist host tools agent Q objective s counts w k h =
    run-P host tools agent (λ b w. Q w)
      (record {
        spent = λ b w h. h;
        time_keeps = λ b. k.time_kept;
        router_keeps = λ b. k.router_kept;
        route_spends = λ b. k.route_kept;
        step_keeps = λ b. k.step_kept;
        track_keeps = λ b. k.track_kept;
        tool_keeps = λ b. k.tool_kept;
      })
      objective (s, (counts, w)) h
