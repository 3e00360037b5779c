-- ===== src/RedisClient/Uptime.antt =====
-- The client while the server is reached: what is set is there.
use ai_chat_bot_v.Base.{ap, ◌∙◌, ℕ, ◌≡◌, true, false, some, String, Bool-cases, inl, inr}
use ai_chat_bot_v.RedisClient.Server.{Reply, Value, RedisServer, Live}
use ai_chat_bot_v.RedisClient.{
  ret, Client, ensure_connected, guarded, ping, set, setex, exists, get_redis, settle, after_reply,
  positive,
}

module _ (redis : RedisServer) (live : Live redis) (c : Client redis) (up : live.Up c.server) where
  abbrev pub linked : Client redis
  linked = record { connected = true; server = c.server }

  -- A method reaches the server, over the connection that is there or a new one.
  guarded_up :
      {A : Type 0} (default : A) (command : redis.Server → Reply A × redis.Server)
      → guarded redis default command c ≡ (
        settle redis default (command c.server).0,
        record { connected = true; server = (command c.server).1 },
      )
  unfolding guarded ensure_connected
  guarded_up default command = elim (Bool-cases c.connected) [
    | inl yes' ↦ rw (yes', ensure_connected)
    | inr no' ↦ simp (guarded, ensure_connected, no', live.connect_up c.server up)
  ]

  pub get_redis_up : get_redis redis c ≡ (true, linked)
  unfolding get_redis ping
  get_redis_up = rw (guarded_up false redis.ping, live.ping_up c.server up)

  -- The client after a key has been set.
  module _ (k : String) (v : Value) (ttl : ℕ) where
    abbrev pub stored : Client redis
    stored = record { connected = true; server = (redis.set k v (some ttl) false c.server).1 }

    pub setex_up : setex redis k ttl v c ≡ (ret true, stored)
    unfolding setex set
    setex_up =
        rw (guarded_up false (redis.set k v (some ttl) false), live.set_up k v ttl c.server up)

-- A key that was set is there.
pub exists-setex :
    (redis : RedisServer) (live : Live redis) (c : Client redis) (up : live.Up c.server)
    (k : String) (v : Value) (ttl : ℕ)
    → (exists redis k (stored redis live c up k v ttl)).0 ≡ ret true
unfolding exists
exists-setex redis live c up k v ttl =
    ap (λ p. p.0)
      (guarded_up redis live (stored redis live c up k v ttl) (live.set_stays k v ttl c.server up)
        false (after_reply redis (positive redis) (redis.exists k)))
    ∙ ap (λ r. settle redis false (positive redis r)) (live.exists-set k v ttl c.server up)
