-- ===== src/Tasks.antt =====
-- background_tasks.py: the tasks of the workers, and what Celery makes of a retry.
pub mod Delivery
pub mod Documents
pub mod Upkeep
pub mod Rag
mod Examples
use ai_chat_bot_v.Base.{ℕ, ◌≡◌, ◌<◌}

-- What `self.retry(exc=exc)` raises: the request to run again, a MaxRetriesExceededError, or `exc`
-- itself.
pub data Retried : Type 0 where
  again : Retried
  exceeded : Retried
  reraised : Retried

-- As Celery documents it of a task with `max_retries`: it runs again so often, and then `exc`, where
-- it is given, is raised.
pub record IsCelery (max_retries : ℕ) (retry : (retries : ℕ) → Retried) : Type 0 where
  pub runs_again : (retries : ℕ) → retries < max_retries → retry retries ≡ again
  pub gives_up : retry max_retries ≡ reraised
