-- ===== src/CostRouter/Budget/Outage.antt =====
-- The budgets while Redis cannot be reached.
use ai_chat_bot_v.Base.{ℕ, ◌≡◌, List, [], ◌∷◌, String}
use ai_chat_bot_v.CostRouter.Budget.{
  Calendar, Ledger, init_budget, get_budget, deduct_budget, spend,
}
use ai_chat_bot_v.CostRouter.Catalog.{monthly_limit}
use ai_chat_bot_v.RedisClient.Server.{RedisServer, IsDown}
use ai_chat_bot_v.RedisClient.Outage.{
  get_redis_down, get_down, setex_down, exists_down, incrbyfloat_down,
}

module _ (redis : RedisServer) (today : Calendar) (l : Ledger redis today)
    (d : IsDown redis l.client.server) where
  init_budget_down : (user tier : String) → init_budget redis today user tier l ≡ l
  unfolding init_budget
  init_budget_down user tier =
      simp (init_budget, get_redis_down redis l.client d, setex_down redis l.client d)

  get_budget_down :
      (user tier : String) → get_budget redis today user tier l ≡ (monthly_limit tier, l)
  unfolding get_budget
  get_budget_down user tier = simp (
    get_budget,
    init_budget,
    get_redis_down redis l.client d,
    get_down redis l.client d,
    setex_down redis l.client d,
  )

  deduct_budget_down :
      (user tier : String) (amount : ℕ) → deduct_budget redis today user tier amount l ≡ l
  unfolding deduct_budget
  deduct_budget_down user tier amount = simp (
    deduct_budget,
    spend,
    init_budget,
    get_redis_down redis l.client d,
    exists_down redis l.client d,
    setex_down redis l.client d,
    incrbyfloat_down redis l.client d,
  )

-- A series of deductions from one user's budget.
pub deduct_all :
    (redis : RedisServer) (today : Calendar)
    → (user tier : String) → List ℕ
    → Ledger redis today
    → Ledger redis today
deduct_all redis today user tier [] l = l
deduct_all redis today user tier (a ∷ amounts) l =
    deduct_all redis today user tier amounts (deduct_budget redis today user tier a l)

-- While Redis cannot be reached, a user's remaining budget is the full monthly limit, whatever has
-- been spent: deductions reach neither Redis nor the memory that is meant to stand in for it.
pub outage_unlimited :
    (redis : RedisServer) (today : Calendar) (user tier : String) (amounts : List ℕ)
    (l : Ledger redis today)
    → IsDown redis l.client.server
    → get_budget redis today user tier (deduct_all redis today user tier amounts l)
      ≡ (monthly_limit tier, l)
unfolding deduct_all
outage_unlimited redis today user tier [] l d = get_budget_down redis today l d user tier
outage_unlimited redis today user tier (a ∷ amounts) l d =
    rw (deduct_budget_down redis today l d user tier a)
      (outage_unlimited redis today user tier amounts l d)
