-- ===== src/Cache/Kept.antt =====
-- ai/semantic_cache.py: counting and storing write to Redis only what the cache keeps there.
use ai_chat_bot_v.Base.{
  ℕ, true, false, Option, none, some, String, if◌then◌else◌, Bool-cases, inl, inr,
}
use ai_chat_bot_v.Base.Int.{pos}
use ai_chat_bot_v.Base.Text.{Text}
use ai_chat_bot_v.RedisClient.Server.{RedisServer}
use ai_chat_bot_v.RedisClient.Server as Server
use ai_chat_bot_v.RedisClient.{Client, setex, hincrby, get_redis, after_reply, optional}
use ai_chat_bot_v.RedisClient as RedisClient
use ai_chat_bot_v.Cache.{Codec, CacheEntry}
use ai_chat_bot_v.Cache.Exact.{exact_key, increment_stats, store_exact, entry_data}
use ai_chat_bot_v.Cache.Laws.{OwnEntries, guarded-Holds, get_redis-Holds}

module _ (redis : RedisServer) (codec : Codec) (own : OwnEntries redis codec) where
  pub increment_stats-Holds :
      (stat : String) (c : Client redis)
      → own.Holds c.server
      → own.Holds (increment_stats redis codec stat c).server
  unfolding increment_stats hincrby
  increment_stats-Holds stat c h =
      elim (get_redis redis c).0
        as (λ b.
          own.Holds
            (if◌then◌else◌ {A = Client redis} b
              (hincrby redis "scache:stats" stat (pos 1) (get_redis redis c).1).1
              (get_redis redis c).1).server) [
                | true ↦
                    guarded-Holds redis codec own none
                      (after_reply redis (optional redis)
                        (redis.hincrby "scache:stats" stat (pos 1)))
                      (get_redis redis c).1.connected (get_redis redis c).1.server
                      (own.hincrby_holds "scache:stats" stat (pos 1))
                      (get_redis-Holds redis codec own c h)
                | false ↦ get_redis-Holds redis codec own c h
              ]

  pub store_exact-Holds :
      (ttl : ℕ) (query : Text) (e : CacheEntry) (id : String) (ns : Option String)
      (c : Client redis)
      → own.Holds c.server
      → own.Holds (store_exact redis codec ttl query e id ns c).1.server
  unfolding store_exact setex RedisClient.set
  store_exact-Holds ttl query e id ns c h = elim (Bool-cases (get_redis redis c).0) [
    | inl has ↦ rw has (
        guarded-Holds redis codec own false
          (redis.set (exact_key redis codec query ns)
            (Server.text (codec.dumps (entry_data redis codec e id))) (some ttl) false)
          (get_redis redis c).1.connected (get_redis redis c).1.server
          (own.set_holds (exact_key redis codec query ns) (entry_data redis codec e id) ttl)
          (get_redis-Holds redis codec own c h))
    | inr none' ↦ rw none' (get_redis-Holds redis codec own c h)
  ]
