-- ===== src/Agent.antt =====
-- agent_loop.py: the agents, which reason and call tools until an objective is reached.
pub mod Prompts
pub mod Run
pub mod Orchestrator
mod Examples
