-- ===== src/RateLimiter/Bucket/Bounds.antt =====
-- The numbers that one check of a bucket answers.
use ai_chat_bot_v.Base.{ℕ, ◌+◌, ◌≤◌, ◌<◌, ◌≡◌, false, Option, none, some, String, arith, seconds}
use ai_chat_bot_v.RateLimiter.Bucket.{check_of, check_rate_limit, read_reply, sliding_window_script}
use ai_chat_bot_v.RedisClient.Server.{RedisServer}
use ai_chat_bot_v.RedisClient.{Returned, ret, raised, Client, eval}

-- `Retry-After` lies between a second and one more than the window, if the oldest entry is not from
-- the future.
pub retry_after_bounds :
    (now limit window count oldest : ℕ)
    → 0 < window
    → seconds oldest ≤ now
    → (1 ≤ (check_of now limit window count oldest).retry_after)
      × ((check_of now limit window count oldest).retry_after ≤ window + 1)
unfolding check_of
retry_after_bounds now limit window count oldest h e = ground arith

module _ (now limit window : ℕ) where
  read_reply_refused :
      (redis : RedisServer) (r : Returned (Option (ℕ × ℕ)))
      → 0 < window
      → (read_reply redis now limit window r).is_allowed ≡ false
      → (limit ≤ (read_reply redis now limit window r).count)
        × (1 ≤ (read_reply redis now limit window r).retry_after)
        × ((read_reply redis now limit window r).limit ≡ limit)
  unfolding check_of
  read_reply_refused redis (ret (some (count, oldest))) h e = ground arith
  read_reply_refused redis (ret none) h e = ground arith
  read_reply_refused redis raised h e = ground arith

-- Whatever the server replies, a check refuses only a request whose bucket is full, and asks it to
-- wait a second at least.
pub check_rate_limit_refused :
    (redis : RedisServer) (key : String) (limit window now : ℕ) (id : String) (c : Client redis)
    → 0 < window
    → (check_rate_limit redis key limit window now id c).0.is_allowed ≡ false
    → (limit ≤ (check_rate_limit redis key limit window now id c).0.count)
      × (1 ≤ (check_rate_limit redis key limit window now id c).0.retry_after)
      × ((check_rate_limit redis key limit window now id c).0.limit ≡ limit)
unfolding check_rate_limit
check_rate_limit_refused redis key limit window now id c h e =
    read_reply_refused now limit window redis
      (eval redis (sliding_window_script redis key now window limit id) c).0 h e
