-- ===== src/RedisClient/Outage.antt =====
-- The client while the server cannot be reached: every method answers, with its default.
use ai_chat_bot_v.Base.{
  ℕ, ◌≡◌, Bool, true, false, Option, none, some, [], String, arith, Bool-cases, inl, inr,
}
use ai_chat_bot_v.Base.Int.{ℤ}
use ai_chat_bot_v.RedisClient.Server.{Reply, redis_error, Value, RedisServer, IsDown}
use ai_chat_bot_v.RedisClient.{
  ret, Client, ensure_connected, guarded, ping, set, setex, get, exists, incrbyfloat, eval, hincrby,
  hgetall, get_redis, after_reply, positive, optional,
}

module _ (redis : RedisServer) where
  -- Connected or not, a client of an unreachable server answers the default and stays as it is.
  pub guarded_down :
      {A : Type 0} (default : A) (command : redis.Server → Reply A × redis.Server)
      (c : Client redis)
      → IsDown redis c.server
      → command c.server ≡ (redis_error, c.server)
      → guarded redis default command c ≡ (ret default, c)
  unfolding guarded ensure_connected
  guarded_down default command c d e = elim (Bool-cases c.connected) [
    | inl linked ↦ rw (linked, ensure_connected, e)
    | inr loose ↦ ground (arith, d.connect_down)
  ]

  -- While the server is down `get_redis` still hands out the client, and every method answers its
  -- default: a failed write, no value, no key, no result.
  module _ (c : Client redis) (d : IsDown redis c.server) where
    pub get_redis_down : get_redis redis c ≡ (true, c)
    unfolding get_redis ping
    get_redis_down = rw (guarded_down false redis.ping c d d.ping_down)

    pub get_down : (k : String) → get redis k c ≡ (ret none, c)
    unfolding get
    get_down k = guarded_down none (redis.get k) c d (d.get_down k)

    pub set_down :
        (k : String) (v : Value) (ex : Option ℕ) (nx : Bool)
        → set redis k v ex nx c ≡ (ret false, c)
    unfolding set
    set_down k v ex nx = guarded_down false (redis.set k v ex nx) c d (d.set_down k v ex nx)

    pub setex_down : (k : String) (ttl : ℕ) (v : Value) → setex redis k ttl v c ≡ (ret false, c)
    unfolding setex
    setex_down k ttl v = set_down k v (some ttl) false

    pub exists_down : (k : String) → exists redis k c ≡ (ret false, c)
    unfolding exists
    exists_down k =
        guarded_down false (after_reply redis (positive redis) (redis.exists k)) c d
          (rw (d.exists_down k))

    pub incrbyfloat_down : (k : String) (a : ℤ) → incrbyfloat redis k a c ≡ (ret none, c)
    unfolding incrbyfloat
    incrbyfloat_down k a =
        guarded_down none (after_reply redis (optional redis) (redis.incrbyfloat k a)) c d
          (rw (d.incrbyfloat_down k a))

    pub hincrby_down : (k f : String) (a : ℤ) → hincrby redis k f a c ≡ (ret none, c)
    unfolding hincrby
    hincrby_down k f a =
        guarded_down none (after_reply redis (optional redis) (redis.hincrby k f a)) c d
          (rw (d.hincrby_down k f a))

    pub hgetall_down : (k : String) → hgetall redis k c ≡ (ret [], c)
    unfolding hgetall
    hgetall_down k = guarded_down [] (redis.hgetall k) c d (d.hgetall_down k)

    pub eval_down : (script : redis.Db → (ℕ × ℕ) × redis.Db) → eval redis script c ≡ (ret none, c)
    unfolding eval
    eval_down script =
        guarded_down none (after_reply redis (optional redis) (redis.eval script)) c d
          (rw (d.eval_down script))
