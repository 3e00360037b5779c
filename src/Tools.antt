-- ===== src/Tools.antt =====
-- agent_tools.py: the registry of the tools, their rate limit and their execution.
pub mod Limit
pub mod Registry
pub mod Calls
pub mod Calculator
pub mod Web
pub mod Local
mod Examples
