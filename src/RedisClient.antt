-- ===== src/RedisClient.antt =====
-- redis_client.py, `SyncRedisClient`: every method makes sure of a connection and turns a
-- `RedisError` into a default answer; any other exception leaves the method.
pub mod Server
pub mod Outage
pub mod Uptime
pub mod Exclusive
pub mod Sample
use ai_chat_bot_v.Base.{
  ℕ, ◌<◌, Bool, true, false, Option, none, some, List, [], ◌∷◌, String, ltb, if◌then◌else◌,
}
use ai_chat_bot_v.Base.Int.{ℤ, negsuc}
use ai_chat_bot_v.RedisClient.Server.{Reply, reply, redis_error, other_error, Value, RedisServer}

-- What a method gives back: a value, or an exception that is no `RedisError`.
pub data Returned (A : Type 0) : Type 0 where
  ret : A → Returned A
  raised : Returned A

module _ (redis : RedisServer) where
  open redis use {Server, Db}

  -- `connected` is whether `_client` is set.
  pub record Client : Type 0 where
    pub connected : Bool
    pub server : Server

  unfoldable pub ensure_connected : Client → Bool × Client
  ensure_connected c = elim c.connected [
    | true ↦ (true, c)
    | false ↦
        let (up, server') = redis.connect c.server in
        (up, record { connected = up; server = server' })
  ]

  -- What a method makes of the reply to its command.
  abbrev pub settle : {A : Type 0} → A → Reply A → Returned A
  settle default (reply a) = ret a
  settle default redis_error = ret default
  settle default other_error = raised

  -- The shape that the methods share: a default where there is no connection or a `RedisError`.
  unfoldable pub guarded :
      {A : Type 0} → A → (Server → Reply A × Server) → Client → Returned A × Client
  unfolding ensure_connected
  guarded default command c =
      let (up, c') = ensure_connected c in
      elim up [
        | false ↦ (ret default, c')
        | true ↦
            let (r, server') = command c'.server in
            (settle default r, record c' { server = server' })
      ]

  unfoldable pub ping : Client → Returned Bool × Client
  unfolding guarded
  ping = guarded false redis.ping

  unfoldable pub set : String → Value → Option ℕ → Bool → Client → Returned Bool × Client
  unfolding guarded
  set key value ex nx = guarded false (redis.set key value ex nx)

  unfoldable pub setex : String → ℕ → Value → Client → Returned Bool × Client
  unfolding set
  setex key ttl value = set key value (some ttl) false

  -- The value as it is stored; what `parse_json` makes of it is left to the callers.
  unfoldable pub get : String → Client → Returned (Option Value) × Client
  unfolding guarded
  get key = guarded none (redis.get key)

  -- `delete()` of no key sends nothing.
  unfoldable pub delete : List String → Client → Returned ℕ × Client
  unfolding guarded
  delete [] c = let (up, c') = ensure_connected c in (ret 0, c')
  delete (k ∷ ks) c = guarded 0 (redis.delete (k ∷ ks)) c

  -- A command whose reply is put in another form.
  abbrev pub after_reply :
      {A B : Type 0} → (Reply A → Reply B) → (Server → Reply A × Server) → Server → Reply B × Server
  after_reply f command s = let (r, s') = command s in (f r, s')

  -- `self._client.exists(key) > 0`
  abbrev pub positive : Reply ℕ → Reply Bool
  positive (reply n) = reply (ltb 0 n)
  positive redis_error = redis_error
  positive other_error = other_error

  unfoldable pub exists : String → Client → Returned Bool × Client
  unfolding guarded
  exists key = guarded false (after_reply positive (redis.exists key))

  unfoldable pub keys : String → Client → Returned (List String) × Client
  unfolding guarded
  keys pattern = guarded [] (redis.keys pattern)

  -- An optional reply, which is `None` where the command fails.
  abbrev pub optional : {A : Type 0} → Reply A → Reply (Option A)
  optional (reply a) = reply (some a)
  optional redis_error = redis_error
  optional other_error = other_error

  unfoldable pub incrbyfloat : String → ℤ → Client → Returned (Option ℤ) × Client
  unfolding guarded
  incrbyfloat key amount = guarded none (after_reply optional (redis.incrbyfloat key amount))

  unfoldable pub expire : String → (ttl_seconds : ℕ) → Client → Returned Bool × Client
  unfolding guarded
  expire key ttl_seconds = guarded false (redis.expire_key key ttl_seconds)

  -- -2 where the key is missing or the server is.
  unfoldable pub ttl : String → Client → Returned ℤ × Client
  unfolding guarded
  ttl key = guarded (negsuc 1) (redis.ttl key)

  unfoldable pub scan :
      (cursor : ℕ) → (pattern : String) → (count : ℕ) → Client → Returned (ℕ × List String) × Client
  unfolding guarded
  scan cursor pattern count = guarded (0, []) (redis.scan cursor pattern count)

  unfoldable pub hincrby :
      String → (field_name : String) → ℤ → Client → Returned (Option ℤ) × Client
  unfolding guarded
  hincrby key field_name amount =
      guarded none (after_reply optional (redis.hincrby key field_name amount))

  unfoldable pub hgetall : String → Client → Returned (List (String × ℤ)) × Client
  unfolding guarded
  hgetall key = guarded [] (redis.hgetall key)

  unfoldable pub eval : (Db → (ℕ × ℕ) × Db) → Client → Returned (Option (ℕ × ℕ)) × Client
  unfolding guarded
  eval script = guarded none (after_reply optional (redis.eval script))

  -- `_get_redis` of cost_router.py and rate_limiter.py: the answer of `ping` is not looked at, so
  -- only an exception gives `None`.
  unfoldable pub get_redis : Client → Bool × Client
  unfolding ping
  get_redis c = let (r, c') = ping c in (elim r [ ret pong ↦ true | raised ↦ false ], c')
