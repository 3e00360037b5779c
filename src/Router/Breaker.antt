-- ===== src/Router/Breaker.antt =====
-- model_router.py, `CircuitBreaker`: the failures counted for each provider, and when the count
-- reached the threshold. A reading of the clock is an argument, in microseconds. The threshold is
-- taken to be at least 1 (the program builds one breaker, with 3 and 60).
pub mod Phases
pub mod Runs
use ai_chat_bot_v.Base.{
  ℕ, ◌+◌, ◌-◌, Bool, true, false, none, some, [], String, ltb, leb, if◌then◌else◌, seconds,
}
use ai_chat_bot_v.Base.Dict.{Dict, lookup, get_or, insert, erase}

pub record Breaker : Type 0 where
  pub failure_threshold : ℕ
  pub recovery_timeout : ℕ
  pub failures : Dict ℕ
  pub opened_at : Dict ℕ

-- `CircuitBreaker.__init__`
abbrev pub new_breaker : ℕ → ℕ → Breaker
new_breaker threshold timeout = record {
  failure_threshold = threshold;
  recovery_timeout = timeout;
  failures = [];
  opened_at = [];
}

-- `_circuit_breaker = CircuitBreaker()`
abbrev pub default_breaker : Breaker
default_breaker = new_breaker 3 60

unfoldable pub is_open : String → ℕ → Breaker → Bool × Breaker
is_open provider now b = elim (lookup provider b.failures) [
  | none ↦ (false, b)
  | some n ↦
      if ltb n b.failure_threshold
      then (false, b)
      else if ltb (seconds b.recovery_timeout) (now - get_or provider b.opened_at 0)
      then (false, record b { failures = insert provider (b.failure_threshold - 1) b.failures })
      else (true, b)
]

unfoldable pub record_success : String → Breaker → Breaker
record_success provider b = record b {
  failures = insert provider 0 b.failures;
  opened_at = erase provider b.opened_at;
}

unfoldable pub record_failure : String → ℕ → Breaker → Breaker
record_failure provider now b =
    let count = get_or provider b.failures 0 + 1 in
    let failures' = insert provider count b.failures in
    if leb b.failure_threshold count
    then record b { failures = failures'; opened_at = insert provider now b.opened_at }
    else record b { failures = failures' }
