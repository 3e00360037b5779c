-- ===== src/RedisClient/Exclusive.antt =====
-- `SET NX` on a client that is connected.
use ai_chat_bot_v.Base.{ℕ, ◌≡◌, Bool, true, false, some, String}
use ai_chat_bot_v.RedisClient.Server.{reply, Value, RedisServer}
use ai_chat_bot_v.RedisClient.{ret, Client, set, guarded, ensure_connected, settle}

-- A `SET NX` that has succeeded makes the next one on its key fail, as long as the key has not
-- expired.
pub record Exclusive (redis : RedisServer) : Type 0 where
  pub taken :
      (k : String) (v : Value) (ttl ttl' : ℕ) (s : redis.Server)
      → (redis.set k v (some ttl) true s).0 ≡ reply true
      → (redis.set k v (some ttl') true (redis.set k v (some ttl) true s).1).0 ≡ reply false

module _ (redis : RedisServer) (c : Client redis) (linked : c.connected ≡ true) where
  -- The client after a `SET NX`.
  abbrev pub marked : String → Value → ℕ → Client redis
  marked k v ttl = record { connected = true; server = (redis.set k v (some ttl) true c.server).1 }

  pub set_linked :
      (k : String) (v : Value) (ttl : ℕ) (b : Bool)
      → (redis.set k v (some ttl) true c.server).0 ≡ reply b
      → set redis k v (some ttl) true c ≡ (ret b, marked k v ttl)
  unfolding set
  set_linked k v ttl b e = simp (set, guarded, ensure_connected, linked, settle, e)
