-- ===== src/Router/Retry.antt =====
-- model_router.py, `_call_with_retry`: attempts with exponential backoff.
pub mod Laws
use ai_chat_bot_v.Base.{ℕ, zero, suc, ◌+◌, ◌*◌, ◌/◌, ◌^◌, Bool, ◌||◌, ◌==◌, if◌then◌else◌, seconds}
use ai_chat_bot_v.Base.Text.{Text}
use ai_chat_bot_v.Router.Providers.{
  Env, Request, Attempt, replied, timed_out, http_status, failed, RetryAfter, missing, malformed,
  after,
}

-- `fell_through`: no attempt was made, and Python returns `None`.
pub data Outcome : Type 0 where
  reply : Text → ℕ → ℕ → Outcome
  gave_up : Outcome
  fell_through : Outcome

-- `exc.response.status_code in {429, 503}`
abbrev pub is_rate_limited : ℕ → Bool
is_rate_limited status = status == 429 || status == 503

abbrev pub backoff : ℕ → ℕ → ℕ
backoff base_delay attempt = base_delay * 2 ^ attempt

module _ (env : Env) where
  open env use {World, call, sleep}

  -- The attempts that are left, of which the next has the number `attempt`. A rate limit on the
  -- last attempt sleeps before it raises.
  unfoldable pub attempts_from : ℕ → ℕ → ℕ → Request → World → Outcome × World
  attempts_from zero attempt base_delay req w = (fell_through, w)
  attempts_from (suc left) attempt base_delay req w =
      let (answer, w') = call req w in
      let again = λ (pause : ℕ). attempts_from left (attempt + 1) base_delay req (sleep pause w') in
      elim answer [
        | replied text prompt completion ↦ (reply text prompt completion, w')
        | timed_out ↦ if left == 0 then (gave_up, w') else again (backoff base_delay attempt)
        | failed ↦ if left == 0 then (gave_up, w') else again (backoff base_delay attempt)
        | http_status status header ↦
            if is_rate_limited status
            then elim header [
              | malformed ↦ (gave_up, w')
              | missing ↦
                  if left == 0
                  then (gave_up, sleep (seconds (backoff base_delay attempt / 1_000_000)) w')
                  else again (seconds (backoff base_delay attempt / 1_000_000))
              | after n ↦ if left == 0 then (gave_up, sleep (seconds n) w') else again (seconds n)
            ]
            else (gave_up, w')
      ]

  unfoldable pub call_with_retry : (max_retries base_delay : ℕ) → Request → World → Outcome × World
  unfolding attempts_from
  call_with_retry max_retries base_delay req w = attempts_from max_retries 0 base_delay req w
