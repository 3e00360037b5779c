-- ===== src/Agent/Orchestrator.antt =====
-- agent_loop.py, `MultiAgentOrchestrator` and `run_agent`: the agents that are made for a kind of task,
-- and the runs that are active. A run that is active has its agent's state; what others do to the
-- table while an agent runs is not followed.
use ai_chat_bot_v.Base.{
  ℕ, ◌≡◌, Bool, true, false, Option, none, some, List, [], ◌∷◌, ◌++◌, map, String, str_eq,
  if◌then◌else◌, Bool-cases, inl, inr,
}
use ai_chat_bot_v.Base.Dict.{Dict, lookup, insert, erase, lookup-insert, lookup-erase}
use ai_chat_bot_v.Base.Text.{Text, codes}
use ai_chat_bot_v.Agent.Run.{AgentResult, Host, Agent, RunState, new_agent, new_run, cancel}
use ai_chat_bot_v.Agent.Run.Loop.{run}
use ai_chat_bot_v.Tools.Calls.{Syntax}
use ai_chat_bot_v.Tools.Registry.{Tools, ToolState, list_tools}

-- The settings of the program.
pub record Settings : Type 0 where
  pub agent_max_iterations : ℕ
  pub agent_timeout : ℕ

-- The kinds of agents, with the text that each makes of its task.
pub data Task : Type 0 where
  research : (query : Text) → Task
  coding : (task language : Text) → Task
  analysis : (asked_of question : Text) → Task
  general : (objective : Text) (max_iterations : Option ℕ) → Task

unfoldable pub objective_of : Task → Text
objective_of (research query) =
    codes "Research the following topic thoroughly and provide a comprehensive summary: " ++ query
objective_of (coding task language) =
    codes "Write " ++ language ++ codes " code to accomplish the following task: " ++ task
objective_of (analysis asked_of question) =
    codes "Analyze the following data and answer the question.\n\nData:\n"
    ++ asked_of
    ++ codes "\n\nQuestion: "
    ++ question
objective_of (general objective max_iterations) = objective

abbrev iterations_of : Task → Option ℕ
iterations_of (research query) = some 8
iterations_of (coding task language) = some 10
iterations_of (analysis asked_of question) = some 8
iterations_of (general objective max_iterations) = max_iterations

abbrev tools_of : Task → Option (List String)
tools_of (research query) = some ("web_search" ∷ "wikipedia" ∷ "current_time" ∷ [])
tools_of (coding task language) = some ("calculator" ∷ "json_formatter" ∷ "unit_converter" ∷ [])
tools_of (analysis asked_of question) =
    some ("calculator" ∷ "unit_converter" ∷ "json_formatter" ∷ [])
tools_of (general objective max_iterations) = none

module _ {syntax : Syntax} (host : Host syntax) (tools : Tools syntax.Json host.World)
    (settings : Settings) where
  -- `Agent(...)` where the timeouts and the limit of the memory have their defaults.
  unfoldable pub agent_for :
      (user_id user_tier : String) (max_iterations : Option ℕ)
      (allowed_tools : Option (List String))
      → Agent
  unfolding new_agent
  agent_for user_id user_tier max_iterations allowed_tools =
      new_agent settings.agent_max_iterations settings.agent_timeout (list_tools tools) user_id
        user_tier max_iterations none 60 20 allowed_tools

  -- `_active_runs`
  abbrev pub ActiveRuns : Type 0
  ActiveRuns = Dict (RunState syntax)

  -- `run_research_agent`, `run_coding_agent`, `run_analysis_agent` and `run_general_agent`: the run is
  -- active until it ends, with a result or with the exception for a blank objective.
  unfoldable pub run_task :
      (run_id user_id user_tier : String)
      → Task
      → ActiveRuns × ToolState host.World
      → Option (AgentResult syntax) × (ActiveRuns × ToolState host.World)
  unfolding agent_for objective_of run insert erase
  run_task run_id user_id user_tier task (active, st) =
      let agent = agent_for user_id user_tier (iterations_of task) (tools_of task) in
      let begun = insert run_id new_run active in
      let (result, (s, st')) = run host tools agent (objective_of task) (new_run, st) in
      (result, (erase run_id begun, st'))

  -- An agent is true, so the test of it is whether there is one.
  unfoldable pub cancel_run : (run_id : String) → ActiveRuns → Bool × ActiveRuns
  unfolding cancel insert
  cancel_run run_id active = elim (lookup run_id active) [
    | none ↦ (false, active)
    | some s ↦ (true, insert run_id (cancel s) active)
  ]

  abbrev pub get_active_runs : ActiveRuns → List String
  get_active_runs active = map (λ e. e.0) active

  -- `run_agent`, of an agent that is in no table.
  unfoldable pub run_agent :
      (objective : Text) (user_id user_tier : String) (max_iterations : Option ℕ)
      → (allowed_tools : Option (List String)) → ToolState host.World
      → Option (AgentResult syntax) × ToolState host.World
  unfolding agent_for run
  run_agent objective user_id user_tier max_iterations allowed_tools st =
      let agent = agent_for user_id user_tier max_iterations allowed_tools in
      let (result, (s, st')) = run host tools agent objective (new_run, st) in (result, st')

  -- A run that has ended is active no more, and the other runs are as they were.
  pub lookup-run_task :
      (j run_id user_id user_tier : String) (task : Task) (active : ActiveRuns)
      (st : ToolState host.World)
      → lookup j (run_task run_id user_id user_tier task (active, st)).1.0
        ≡ (if str_eq j run_id then none else lookup j active)
  unfolding run_task
  lookup-run_task j run_id user_id user_tier task active st = elim (Bool-cases (str_eq j run_id)) [
    | inl same ↦ rw (lookup-erase j run_id (insert run_id new_run active), same)
    | inr other ↦ rw (
      lookup-erase j run_id (insert run_id new_run active),
      other,
      lookup-insert j run_id new_run active,
      other,
    )
  ]
