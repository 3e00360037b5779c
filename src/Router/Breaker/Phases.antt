-- ===== src/Router/Breaker/Phases.antt =====
-- The breaker of each provider as an automaton of two phases, and the refinement: every operation
-- moves the phase of its own provider as the automaton says, and no other.
use ai_chat_bot_v.Base.{
  ℕ, ◌+◌, ◌-◌, ◌<◌, ◌≤◌, ◌≡◌, ap, Bool, true, false, none, some, String, ltb, str_eq, if◌then◌else◌,
  seconds, arith, eq_iff,
}
use ai_chat_bot_v.Base.Dict.{lookup, get_or, lookup-insert, lookup-erase}
use ai_chat_bot_v.Router.Breaker.{Breaker, is_open, record_success, record_failure}

-- Fewer failures than the threshold, or tripped at a time.
pub data Phase : Type 0 where
  closed : ℕ → Phase
  opened : ℕ → Phase

unfoldable pub phase : String → Breaker → Phase
phase p b = elim (lookup p b.failures) [
  | none ↦ closed 0
  | some n ↦ if ltb n b.failure_threshold then closed n else opened (get_or p b.opened_at 0)
]

unfoldable pub after_failure : (threshold now : ℕ) → Phase → Phase
after_failure threshold now (closed n) =
    if ltb (n + 1) threshold then closed (n + 1) else opened now
after_failure threshold now (opened t) = opened now

-- The answer is whether to skip the provider; past the timeout one trial is let through.
unfoldable pub query : (threshold timeout now : ℕ) → Phase → Bool × Phase
query threshold timeout now (closed n) = (false, closed n)
query threshold timeout now (opened t) =
    if ltb (seconds timeout) (now - t) then (false, closed (threshold - 1)) else (true, opened t)

module _ (p q : String) (b : Breaker) (positive : 0 < b.failure_threshold) where
  -- A success closes the provider's circuit with no failure counted.
  pub phase-record_success :
      phase q (record_success p b) ≡ (if str_eq q p then closed 0 else phase q b)
  unfolding phase record_success
  phase-record_success =
      ground (arith, lookup-insert q p 0 b.failures, lookup-erase q p b.opened_at)

  pub phase-record_failure :
      (now : ℕ)
      → phase q (record_failure p now b)
        ≡ (if str_eq q p then after_failure b.failure_threshold now (phase q b) else phase q b)
  unfolding phase record_failure after_failure
  phase-record_failure now = ground (
    arith,
    eq_iff q p,
    lookup-insert q p (get_or p b.failures 0 + 1) b.failures,
    lookup-insert q p now b.opened_at,
  )

  pub phase-is_open :
      (now : ℕ)
      → phase q (is_open p now b).1 ≡ (
          if str_eq q p
          then (query b.failure_threshold b.recovery_timeout now (phase q b)).1
          else phase q b)
  unfolding phase is_open query
  phase-is_open now =
      ground (arith, eq_iff q p, lookup-insert q p (b.failure_threshold - 1) b.failures)

pub is_open-query :
    (p : String) (now : ℕ) (b : Breaker)
    → (is_open p now b).0 ≡ (query b.failure_threshold b.recovery_timeout now (phase p b)).0
unfolding phase is_open query
is_open-query p now b = ground arith

-- The circuit of `q` tripped at `t`, and `limit` is within its timeout.
pub record Tripped (q : String) (t limit : ℕ) (b : Breaker) : Type 0 where
  pub positive : 0 < b.failure_threshold
  pub tripped : phase q b ≡ opened t
  pub within : limit ≤ t + seconds b.recovery_timeout

module _ (p q : String) (t limit now : ℕ) (b : Breaker) (h : Tripped q t limit b)
    (early : now ≤ limit) where
  pub is_open_tripped : (is_open q now b).0 ≡ true
  unfolding query
  is_open_tripped = rw (is_open-query, h.tripped) (ground arith)

  is_open_parameters :
      ((is_open p now b).1.failure_threshold ≡ b.failure_threshold)
      × ((is_open p now b).1.recovery_timeout ≡ b.recovery_timeout)
  unfolding is_open
  is_open_parameters = ground arith

  pub is_open-Tripped : Tripped q t limit (is_open p now b).1
  unfolding query
  is_open-Tripped = record {
    positive = omega (arith, is_open_parameters.0, h.positive);
    tripped = ground (arith, phase-is_open p q b h.positive now, h.tripped, h.within);
    within = omega (arith, ap seconds is_open_parameters.1, h.within);
  }
