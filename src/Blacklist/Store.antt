-- ===== src/Blacklist/Store.antt =====
-- What jwt_blacklist.py sends to Redis, over its own connection: an abstract server, which is not
-- code of the repository, and what is relied on of it.
use ai_chat_bot_v.Base.{
  ℕ, ◌≡◌, Bool, true, Option, none, some, List, [], ◌∷◌, String, str_eq, if◌then◌else◌,
}
use ai_chat_bot_v.RedisClient.Server.{Reply, reply}

pub data Stored : Type 0 where
  number : ℕ → Stored
  text : String → Stored

-- The commands of a pipeline.
pub data Command : Type 0 where
  setex : String → (ttl : ℕ) → Stored → Command
  sadd : String → List String → Command
  expire : String → ℕ → Command
  hincrby : String → String → ℕ → Command
  hset : String → String → ℕ → Command

pub record TokenStore : Type 1 where
  pub Server : Type 0
  pub ping : Server → Reply Bool × Server
  pub setex : String → (ttl : ℕ) → Stored → Server → Reply Bool × Server
  pub get : String → Server → Reply (Option Stored) × Server
  pub exists : String → Server → Reply ℕ × Server
  pub hincrby : String → String → ℕ → Server → Reply ℕ × Server
  pub pipeline : List Command → Server → Reply Bool × Server

-- The last value that a pipeline stores under a key.
abbrev pub stored_by : String → List Command → Option Stored
stored_by k [] = none
stored_by k (setex j ttl v ∷ cs) = elim (stored_by k cs) [
  | some w ↦ some w
  | none ↦ if str_eq k j then some v else none
]
stored_by k (c ∷ cs) = stored_by k cs

-- A server that is reached and stays so: what a pipeline or a command stores is there. The values
-- that have not expired are `value`; the counters of a hash are none of them, and each key is used
-- for values of one type.
pub record Reached (store : TokenStore) : Type 1 where
  pub Up : store.Server → Type 0
  pub value : String → store.Server → Option Stored
  pub ping_up : (s : store.Server) → Up s → store.ping s ≡ (reply true, s)
  pub exists_up :
      (k : String) (s : store.Server)
      → Up s
      → store.exists k s ≡ (reply (elim (value k s) [ none ↦ 0 | some v ↦ 1 ]), s)
  pub get_up : (k : String) (s : store.Server) → Up s → store.get k s ≡ (reply (value k s), s)
  pub pipeline_up :
      (cs : List Command) (s : store.Server) → Up s → (store.pipeline cs s).0 ≡ reply true
  pub pipeline_stays : (cs : List Command) (s : store.Server) → Up s → Up (store.pipeline cs s).1
  pub pipeline_value :
      (cs : List Command) (s : store.Server) (k : String)
      → Up s
      → value k (store.pipeline cs s).1
        ≡ (elim (stored_by k cs) [ none ↦ value k s | some v ↦ some v ])
  pub setex_up :
      (k : String) (ttl : ℕ) (v : Stored) (s : store.Server)
      → Up s
      → (store.setex k ttl v s).0 ≡ reply true
  pub setex_stays :
      (k : String) (ttl : ℕ) (v : Stored) (s : store.Server) → Up s → Up (store.setex k ttl v s).1
  pub setex_value :
      (k : String) (ttl : ℕ) (v : Stored) (s : store.Server)
      → Up s
      → value k (store.setex k ttl v s).1 ≡ some v
  pub hincrby_up :
      (k f : String) (n : ℕ) (s : store.Server)
      → Up s
      → (m : ℕ) × ((store.hincrby k f n s).0 ≡ reply m)
  pub hincrby_stays :
      (k f : String) (n : ℕ) (s : store.Server) → Up s → Up (store.hincrby k f n s).1
  pub hincrby_value :
      (k f : String) (n : ℕ) (s : store.Server) (j : String)
      → Up s
      → value j (store.hincrby k f n s).1 ≡ value j s
