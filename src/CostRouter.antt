-- ===== src/CostRouter.antt =====
-- ai/cost_router.py: the choice of a model by complexity and budget, and the budgets.
pub mod Catalog
pub mod Score
pub mod Budget
pub mod Choice
pub mod Api
mod Examples
