-- ===== src/Cache/Laws.antt =====
-- ai/semantic_cache.py: the level of exact matches never answers, so that what `get` answers is what
-- the vector database finds, whatever is in Redis.
use ai_chat_bot_v.Base.{
  ℕ, ◌≡◌, refl, ap, ◌∙◌, Bool, true, false, Option, none, some, List, [], ◌∷◌, String, Bool-cases,
  inl, inr,
}
use ai_chat_bot_v.Base.Int.{ℤ}
use ai_chat_bot_v.Base.Text.{Text, codes}
use ai_chat_bot_v.Base.Dict.{Dict}
use ai_chat_bot_v.RedisClient.Server.{Reply, reply, redis_error, other_error, Value, RedisServer}
use ai_chat_bot_v.RedisClient.Server as Server
use ai_chat_bot_v.RedisClient.{
  Returned, ret, raised, Client, settle, ensure_connected, guarded, ping, delete, keys, get_redis,
}
use ai_chat_bot_v.RedisClient as RedisClient
use ai_chat_bot_v.Cache.{Datum, object, Codec, VectorStore, miss}
use ai_chat_bot_v.Cache.Exact.{parsed, by_value, exact_match, exact_key}

-- `json.loads` reads a dict from what `json.dumps` wrote of one.
pub record Reads (codec : Codec) : Type 0 where
  pub loads-dumps :
      (d : Dict Datum) → (e : Dict Datum) × (codec.loads (codes (codec.dumps d)) ≡ some (object e))

-- States of a server in which the values of the cache are dicts as `json.dumps` writes them, which is
-- all that the cache stores; connecting, `PING`, `KEYS`, `DEL` and
-- `HINCRBY` write no such value.
pub record OwnEntries (redis : RedisServer) (codec : Codec) : Type 1 where
  pub Holds : redis.Server → Type 0
  pub connect_holds : (s : redis.Server) → Holds s → Holds (redis.connect s).1
  pub ping_holds : (s : redis.Server) → Holds s → Holds (redis.ping s).1
  pub keys_holds : (p : String) (s : redis.Server) → Holds s → Holds (redis.keys p s).1
  pub delete_holds : (ks : List String) (s : redis.Server) → Holds s → Holds (redis.delete ks s).1
  pub set_holds :
      (k : String) (d : Dict Datum) (ttl : ℕ) (s : redis.Server)
      → Holds s
      → Holds (redis.set k (Server.text (codec.dumps d)) (some ttl) false s).1
  pub hincrby_holds :
      (k f : String) (n : ℤ) (s : redis.Server) → Holds s → Holds (redis.hincrby k f n s).1
  pub get_own :
      (k : String) (s : redis.Server) (v : Value)
      → Holds s
      → (redis.get k s).0 ≡ reply (some v)
      → (d : Dict Datum) × (v ≡ Server.text (codec.dumps d))

module _ (redis : RedisServer) (codec : Codec) (own : OwnEntries redis codec) where
  open own use {Holds}

  settle-eq-some :
      (r : Reply (Option Value)) (v : Value)
      → settle redis none r ≡ ret (some v)
      → r ≡ reply (some v)
  settle-eq-some (reply a) v h = cc
  settle-eq-some redis_error v h = absurd (cc)
  settle-eq-some other_error v h = absurd (cc)

  -- A method keeps the entries if its command does.
  pub guarded-Holds :
      {A : Type 0} (default : A) (command : redis.Server → Reply A × redis.Server) (b : Bool)
      (s : redis.Server)
      → ((t : redis.Server) → Holds t → Holds (command t).1)
      → Holds s
      → Holds (guarded redis default command (record { connected = b; server = s })).1.server
  unfolding guarded ensure_connected
  guarded-Holds default command true s keep h = keep s h
  guarded-Holds default command false s keep h = elim (Bool-cases (redis.connect s).0) [
    | inl up ↦ rw (guarded, ensure_connected, up) (keep (redis.connect s).1 (own.connect_holds s h))
    | inr down ↦ rw (guarded, ensure_connected, down) (own.connect_holds s h)
  ]

  pub get_redis-Holds : (c : Client redis) → Holds c.server → Holds (get_redis redis c).1.server
  unfolding get_redis ping
  get_redis-Holds c h = guarded-Holds false redis.ping c.connected c.server own.ping_holds h

  -- What the client reads is an entry.
  client_own :
      (k : String) (b : Bool) (s : redis.Server) (v : Value)
      → Holds s
      → (RedisClient.get redis k (record { connected = b; server = s })).0 ≡ ret (some v)
      → (d : Dict Datum) × (v ≡ Server.text (codec.dumps d))
  unfolding RedisClient.get guarded ensure_connected
  client_own k true s v h e = own.get_own k s v h (settle-eq-some (redis.get k s).0 v e)
  client_own k false s v h e = elim (Bool-cases (redis.connect s).0) [
    | inl up ↦ own.get_own k (redis.connect s).1 v (own.connect_holds s h) (
        settle-eq-some (redis.get k (redis.connect s).1).0 v
          (rw (guarded, ensure_connected, up) at e))
    | inr down ↦
        absurd (let f : ret none ≡ ret (some v) = rw (guarded, ensure_connected, down) at e in cc)
  ]

  parsed_own :
      (s : String) (e : Dict Datum)
      → codec.loads (codes s) ≡ some (object e)
      → parsed redis codec (Server.text s) ≡ object e
  parsed_own s e h = rw (parsed, h)

  module _ (reads : Reads codec) (vectors : VectorStore) (now : Text) where
    by_value_own :
        (ttl : ℕ) (key : String) (r : Returned (Option Value) × Client redis)
        → ((v : Value) → r.0 ≡ ret (some v) → (d : Dict Datum) × (v ≡ Server.text (codec.dumps d)))
        → (by_value redis codec vectors ttl now key r).0 ≡ miss vectors
    by_value_own ttl key (raised, c) h = refl
    by_value_own ttl key (ret none, c) h = refl
    by_value_own ttl key (ret (some v), c) h =
        let (d, e) = h v refl in
        let (d', e') = reads.loads-dumps d in
        of_entry d' (ap (parsed redis codec) e ∙ parsed_own (codec.dumps d) d' e')
      where
        of_entry :
            (d : Dict Datum)
            → parsed redis codec v ≡ object d
            → (by_value redis codec vectors ttl now key (ret (some v), c)).0 ≡ miss vectors
        of_entry [] e = rw (e)
        of_entry (f ∷ fs) e = rw (e)

    -- An entry that is there is parsed twice, which fails: whatever is looked up is a miss.
    pub exact_match_misses :
        (ttl : ℕ) (query : Text) (namespace : Option String) (c : Client redis)
        → Holds c.server
        → (exact_match redis codec vectors ttl now query namespace c).0 ≡ miss vectors
    unfolding exact_match
    exact_match_misses ttl query namespace c h = elim (Bool-cases (get_redis redis c).0) [
      | inl has ↦ rw has (
          by_value_own ttl (exact_key redis codec query namespace)
            (RedisClient.get redis (exact_key redis codec query namespace) (get_redis redis c).1)
            (λ v e.
              client_own (exact_key redis codec query namespace) (get_redis redis c).1.connected
                (get_redis redis c).1.server v (get_redis-Holds c h) e))
      | inr none' ↦ rw none'
    ]
