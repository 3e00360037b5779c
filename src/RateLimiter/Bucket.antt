-- ===== src/RateLimiter/Bucket.antt =====
-- rate_limiter.py: the Lua script and `_check_rate_limit`. The identity that a request has in the
-- sorted set is built from the clock and the address of the request object; `request_id` is that
-- printing, a parameter.
pub mod Bounds
pub mod Sliding
use ai_chat_bot_v.Base.{
  ℕ, ◌+◌, ◌-◌, ◌/◌, max, Bool, true, false, Option, none, some, String, ltb, leb, if◌then◌else◌,
  seconds,
}
use ai_chat_bot_v.RedisClient.Server.{RedisServer}
use ai_chat_bot_v.RedisClient.{Returned, ret, raised, Client, eval}

-- What `_check_rate_limit` returns.
pub record Check : Type 0 where
  pub is_allowed : Bool
  pub count : ℕ
  pub limit : ℕ
  pub retry_after : ℕ

-- From the reply of the script on. The division takes whole seconds; where the difference is
-- negative `int` and `max` give 1, as they do at 0.
unfoldable pub check_of : (now limit window : ℕ) → (count oldest : ℕ) → Check
check_of now limit window count oldest = record {
  is_allowed = ltb count limit;
  count = if ltb count limit then count + 1 else count;
  limit = limit;
  retry_after =
      if ltb 0 oldest then max 1 ((seconds (oldest + window) - now) / 1_000_000 + 1) else window;
}

-- The answer where anything raises.
abbrev pub fail_open : ℕ → Check
fail_open limit = record { is_allowed = true; count = 0; limit = limit; retry_after = 0 }

module _ (redis : RedisServer) where
  open redis use {Db}

  -- A reply takes the whole seconds of a number.
  abbrev oldest_or_zero : Option ℕ → ℕ
  oldest_or_zero none = 0
  oldest_or_zero (some s) = s / 1_000_000

  -- `ZREMRANGEBYSCORE key 0 (now - window)`, which removes nothing where that is negative.
  abbrev pub forget_old : String → (now window : ℕ) → Db → Db
  forget_old key now window d =
      if leb (seconds window) now then redis.zremrangebyscore key (now - seconds window) d else d

  abbrev pub admit : String → (now window : ℕ) → String → Db → Db
  admit key now window id d = redis.expire key (window + 1) (redis.zadd key now id d)

  -- `_SLIDING_WINDOW_SCRIPT`
  unfoldable pub sliding_window_script :
      String → (now window limit : ℕ) → (id : String) → Db → (ℕ × ℕ) × Db
  sliding_window_script key now window limit id d =
      let kept = forget_old key now window d in
      let count = redis.zcard key kept in
      let oldest = oldest_or_zero (redis.oldest_score key kept) in
      ((count, oldest), if ltb count limit then admit key now window id kept else kept)

  -- What the code makes of the reply; `result[0]` of `None` raises too.
  abbrev pub read_reply : (now limit window : ℕ) → Returned (Option (ℕ × ℕ)) → Check
  read_reply now limit window (ret (some (count, oldest))) = check_of now limit window count oldest
  read_reply now limit window (ret none) = fail_open limit
  read_reply now limit window raised = fail_open limit

  unfoldable pub check_rate_limit :
      String → (limit window now : ℕ) → (id : String) → Client redis → Check × Client redis
  unfolding sliding_window_script check_of
  check_rate_limit key limit window now id c =
      let (r, c') = eval redis (sliding_window_script key now window limit id) c in
      (read_reply now limit window r, c')
