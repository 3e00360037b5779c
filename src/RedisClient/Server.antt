-- ===== src/RedisClient/Server.antt =====
-- The Redis server and the driver that talks to it, which are not code of the repository: an
-- abstract state with the commands that the program sends. A command replies, raises a
-- `RedisError`, or raises something else.
use ai_chat_bot_v.Base.{ℕ, ◌≡◌, Bool, true, false, Option, some, List, String}
use ai_chat_bot_v.Base.Int.{ℤ}

pub data Reply (A : Type 0) : Type 0 where
  reply : A → Reply A
  redis_error : Reply A
  other_error : Reply A

-- A value under a key: a number, or another text.
pub data Value : Type 0 where
  number : ℤ → Value
  text : String → Value

-- `Db` is the contents of the server as a Lua script sees them. Scores of sorted sets are readings
-- of the clock, in microseconds; `eval` runs a script atomically.
pub record RedisServer : Type 1 where
  pub Server : Type 0
  pub Db : Type 0
  pub connect : Server → Bool × Server
  pub ping : Server → Reply Bool × Server
  pub set : String → Value → (ex : Option ℕ) → (nx : Bool) → Server → Reply Bool × Server
  pub get : String → Server → Reply (Option Value) × Server
  pub delete : List String → Server → Reply ℕ × Server
  pub exists : String → Server → Reply ℕ × Server
  pub keys : (pattern : String) → Server → Reply (List String) × Server
  pub incrbyfloat : String → ℤ → Server → Reply ℤ × Server
  pub expire_key : String → (seconds : ℕ) → Server → Reply Bool × Server
  pub ttl : String → Server → Reply ℤ × Server
  pub scan :
      (cursor : ℕ) → (pattern : String) → (count : ℕ) → Server → Reply (ℕ × List String) × Server
  pub hincrby : String → (field : String) → ℤ → Server → Reply ℤ × Server
  pub hgetall : String → Server → Reply (List (String × ℤ)) × Server
  pub eval : (Db → (ℕ × ℕ) × Db) → Server → Reply (ℕ × ℕ) × Server
  pub zremrangebyscore : String → (upto : ℕ) → Db → Db
  pub zcard : String → Db → ℕ
  pub oldest_score : String → Db → Option ℕ
  pub zadd : String → (score : ℕ) → (member : String) → Db → Db
  pub expire : String → (seconds : ℕ) → Db → Db

-- The server cannot be reached: no connection is made, and every command raises a `RedisError` and
-- changes nothing.
pub record IsDown (redis : RedisServer) (s : redis.Server) : Type 0 where
  pub connect_down : redis.connect s ≡ (false, s)
  pub ping_down : redis.ping s ≡ (redis_error, s)
  pub set_down :
      (k : String) (v : Value) (ex : Option ℕ) (nx : Bool)
      → redis.set k v ex nx s ≡ (redis_error, s)
  pub get_down : (k : String) → redis.get k s ≡ (redis_error, s)
  pub delete_down : (ks : List String) → redis.delete ks s ≡ (redis_error, s)
  pub exists_down : (k : String) → redis.exists k s ≡ (redis_error, s)
  pub keys_down : (pattern : String) → redis.keys pattern s ≡ (redis_error, s)
  pub incrbyfloat_down : (k : String) (a : ℤ) → redis.incrbyfloat k a s ≡ (redis_error, s)
  pub hincrby_down : (k f : String) (a : ℤ) → redis.hincrby k f a s ≡ (redis_error, s)
  pub hgetall_down : (k : String) → redis.hgetall k s ≡ (redis_error, s)
  pub eval_down : (script : redis.Db → (ℕ × ℕ) × redis.Db) → redis.eval script s ≡ (redis_error, s)

-- What the program relies on of a server that is reached and stays so: commands are replied to, and
-- a key that was set is there.
pub record Live (redis : RedisServer) : Type 1 where
  pub Up : redis.Server → Type 0
  pub connect_up : (s : redis.Server) → Up s → redis.connect s ≡ (true, s)
  pub ping_up : (s : redis.Server) → Up s → redis.ping s ≡ (reply true, s)
  pub set_up :
      (k : String) (v : Value) (ttl : ℕ) (s : redis.Server)
      → Up s
      → (redis.set k v (some ttl) false s).0 ≡ reply true
  pub set_stays :
      (k : String) (v : Value) (ttl : ℕ) (s : redis.Server)
      → Up s
      → Up (redis.set k v (some ttl) false s).1
  pub exists-set :
      (k : String) (v : Value) (ttl : ℕ) (s : redis.Server)
      → Up s
      → (redis.exists k (redis.set k v (some ttl) false s).1).0 ≡ reply 1
