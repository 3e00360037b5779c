-- ===== src/CostRouter/Budget.antt =====
-- ai/cost_router.py: the monthly budget of a user, in Redis or, failing that, in memory.
pub mod Outage
use Prim.Native.String.{◌++◌}
use ai_chat_bot_v.Base.{ℕ, ◌*◌, ◌-◌, max, Bool, true, false, Option, none, some, String}
use ai_chat_bot_v.Base.Dict.{Dict, get_or, insert}
use ai_chat_bot_v.Base.Int.{ℤ, pos, ◌-ℤ◌}
use ai_chat_bot_v.CostRouter.Catalog.{monthly_limit}
use ai_chat_bot_v.RedisClient.Server.{Value, number, text, RedisServer}
use ai_chat_bot_v.RedisClient.{
  Returned, ret, raised, Client, get_redis, get, setex, exists, incrbyfloat,
}

-- `_budget_key`
unfoldable pub budget_key : String → String
budget_key user = "budget:monthly:" ++ user

-- The length of the current month and the day in it.
pub record Calendar : Type 0 where
  pub days_in_month : ℕ
  pub day : ℕ

module _ (redis : RedisServer) (today : Calendar) where
  -- The shared Redis client and `_in_memory_budgets`.
  pub record Ledger : Type 0 where
    pub client : Client redis
    pub in_memory : Dict ℤ

  unfoldable pub init_budget : (user tier : String) → Ledger → Ledger
  unfolding budget_key
  init_budget user tier l =
      let (there, c) = get_redis redis l.client in
      let ttl = max ((today.days_in_month - today.day) * 86400) 3600 in
      elim there [
        | true ↦
            let (r, c') = setex redis (budget_key user) ttl (number (monthly_limit tier)) c in
            record l { client = c' }
        | false ↦ record { client = c; in_memory = insert user (monthly_limit tier) l.in_memory }
      ]

  -- The budget held in memory, which is the limit where there is none.
  abbrev in_memory_budget : String → String → Ledger → ℤ
  in_memory_budget user tier l = get_or user l.in_memory (monthly_limit tier)

  -- What `_get_budget` does with the answer of `redis.get`; a value that is no number makes
  -- `float` raise, which falls through to the memory as an exception of the client does.
  abbrev read_budget : String → String → Returned (Option Value) → Ledger → ℤ × Ledger
  read_budget user tier raised l = (in_memory_budget user tier l, l)
  read_budget user tier (ret none) l = (monthly_limit tier, init_budget user tier l)
  read_budget user tier (ret (some (number b))) l = (b, l)
  read_budget user tier (ret (some (text t))) l = (in_memory_budget user tier l, l)

  unfoldable pub get_budget : (user tier : String) → Ledger → ℤ × Ledger
  unfolding init_budget
  get_budget user tier l =
      let (there, c) = get_redis redis l.client in
      elim there [
        | false ↦ (in_memory_budget user tier l, record l { client = c })
        | true ↦
            let (r, c') = get redis (budget_key user) c in
            read_budget user tier r (record l { client = c' })
      ]

  -- The fallback at the end of `_deduct_budget`.
  abbrev deduct_in_memory : (user tier : String) → ℕ → Ledger → Ledger
  deduct_in_memory user tier amount l = record l {
    in_memory =
        insert user (get_or user l.in_memory (monthly_limit tier) -ℤ pos amount) l.in_memory;
  }

  -- `redis.incrbyfloat(key, -amount)`, whose answer is not looked at.
  abbrev spend : (user tier : String) → ℕ → Ledger → Ledger
  spend user tier amount l =
      let (r, c) = incrbyfloat redis (budget_key user) (pos 0 -ℤ pos amount) l.client in
      elim r [
        | ret left ↦ record l { client = c }
        | raised ↦ deduct_in_memory user tier amount (record l { client = c })
      ]

  unfoldable pub deduct_budget : (user tier : String) → ℕ → Ledger → Ledger
  unfolding init_budget
  deduct_budget user tier amount l =
      let (there, c) = get_redis redis l.client in
      elim there [
        | false ↦ deduct_in_memory user tier amount (record l { client = c })
        | true ↦
            let (r, c') = exists redis (budget_key user) c in
            elim r [
              | ret true ↦ spend user tier amount (record l { client = c' })
              | ret false ↦
                  spend user tier amount (init_budget user tier (record l { client = c' }))
              | raised ↦ deduct_in_memory user tier amount (record l { client = c' })
            ]
      ]
