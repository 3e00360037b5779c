-- ===== src/RateLimiter/Blocking.antt =====
-- Blocking an address: what it does while Redis is reached, and what it says while it is not.
use Prim.Native.String.{◌++◌}
use ai_chat_bot_v.Base.{ℕ, ◌≡◌, refl, true, false, String}
use ai_chat_bot_v.Base.Int.{pos}
use ai_chat_bot_v.Base.Text.{Text}
use ai_chat_bot_v.RateLimiter.Admin.{store, block_ip, is_ip_blocked}
use ai_chat_bot_v.RedisClient.Outage.{get_redis_down, setex_down, exists_down}
use ai_chat_bot_v.RedisClient.Server.{number, RedisServer, IsDown, Live}
use ai_chat_bot_v.RedisClient.Uptime.{get_redis_up, setex_up, exists-setex, linked, stored}
use ai_chat_bot_v.RedisClient.{Client}

module _ (redis : RedisServer) (hash : Text → String) (ip : Text) (duration : ℕ)
    (c : Client redis) where
  abbrev key : String
  key = "rl:blocked:ip:" ++ hash ip

  module _ (live : Live redis) (up : live.Up c.server) where
    abbrev now : Client redis
    now = linked redis live c up

    abbrev later : Client redis
    later = stored redis live now up key (number (pos 1)) duration

    block_ip_up : block_ip redis hash ip duration c ≡ (true, later)
    unfolding block_ip
    block_ip_up = simp (
      block_ip,
      store,
      get_redis_up redis live c up,
      setex_up redis live now up key (number (pos 1)) duration,
    )

    is_ip_blocked_up : (is_ip_blocked redis hash ip later).0 ≡ true
    unfolding is_ip_blocked
    is_ip_blocked_up = simp (
      is_ip_blocked,
      get_redis_up redis live later (live.set_stays key (number (pos 1)) duration c.server up),
      exists-setex redis live now up key (number (pos 1)) duration,
    )

    -- While Redis is reached, an address that is blocked is found to be blocked.
    pub is_ip_blocked-block_ip :
        ((block_ip redis hash ip duration c).0 ≡ true)
        × ((is_ip_blocked redis hash ip (block_ip redis hash ip duration c).1).0 ≡ true)
    is_ip_blocked-block_ip = rw block_ip_up (refl, is_ip_blocked_up)

  module _ (d : IsDown redis c.server) where
    block_ip_down : block_ip redis hash ip duration c ≡ (true, c)
    unfolding block_ip
    block_ip_down = simp (block_ip, store, get_redis_down redis c d, setex_down redis c d)

    is_ip_blocked_down : is_ip_blocked redis hash ip c ≡ (false, c)
    unfolding is_ip_blocked
    is_ip_blocked_down = simp (is_ip_blocked, get_redis_down redis c d, exists_down redis c d)

    -- While Redis cannot be reached `block_ip` reports success all the same, and blocks nothing.
    pub block_ip_unheard :
        (block_ip redis hash ip duration c ≡ (true, c))
        × (is_ip_blocked redis hash ip (block_ip redis hash ip duration c).1 ≡ (false, c))
    block_ip_unheard = rw block_ip_down (refl, is_ip_blocked_down)
