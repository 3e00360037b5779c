-- ===== src/Cache/Outage.antt =====
-- ai/semantic_cache.py while neither Redis nor the vector database can be reached.
use ai_chat_bot_v.Base.{ℕ, ◌≡◌, refl, true, false, not, ◌&&◌, Option, String, if◌then◌else◌}
use ai_chat_bot_v.Base.Int.{pos}
use ai_chat_bot_v.Base.Text.{Text, strip, is_empty}
use ai_chat_bot_v.Base.Dict.{Dict}
use ai_chat_bot_v.RedisClient.Server.{RedisServer, IsDown}
use ai_chat_bot_v.RedisClient.Server as Server
use ai_chat_bot_v.RedisClient.{Client}
use ai_chat_bot_v.RedisClient.Outage.{get_redis_down, get_down, setex_down, hincrby_down}
use ai_chat_bot_v.Cache.{
  Datum, Codec, VectorStore, Embedding, Settings, CacheEntry, CacheResult, miss,
}
use ai_chat_bot_v.Cache.Exact.{exact_key, exact_match, increment_stats, store_exact, entry_data}
use ai_chat_bot_v.Cache.Semantic.{semantic_match, store_semantic}
use ai_chat_bot_v.Cache.Lookup.{World, look_up, get, set}

module _ (redis : RedisServer) (codec : Codec) (c : Client redis) (d : IsDown redis c.server) where
  exact_match_down :
      (vectors : VectorStore) (ttl : ℕ) (now query : Text) (ns : Option String)
      → exact_match redis codec vectors ttl now query ns c ≡ (miss vectors, c)
  unfolding exact_match
  exact_match_down vectors ttl now query ns =
      simp (get_redis_down redis c d, get_down redis c d (exact_key redis codec query ns))

  increment_stats_down : (stat : String) → increment_stats redis codec stat c ≡ c
  unfolding increment_stats
  increment_stats_down stat =
      simp (get_redis_down redis c d, hincrby_down redis c d "scache:stats" stat (pos 1))

  -- The answer of `setex` is `False`, which is not looked at.
  store_exact_down :
      (ttl : ℕ) (query : Text) (e : CacheEntry) (id : String) (ns : Option String)
      → store_exact redis codec ttl query e id ns c ≡ (true, c)
  unfolding store_exact
  store_exact_down ttl query e id ns = simp (
    get_redis_down redis c d,
    setex_down redis c d (exact_key redis codec query ns) ttl
        (Server.text (codec.dumps (entry_data redis codec e id))),
  )

module _ (redis : RedisServer) (vectors : VectorStore) (embedding : Embedding vectors)
    (codec : Codec) (settings : Settings vectors) (now : Text) (w : World redis vectors embedding)
    (d : IsDown redis w.client.server) (cut : vectors.connects w.store ≡ false) where
  -- While neither can be reached every lookup is a miss and changes nothing.
  pub get_unreached :
      (query : Text) (ns : Option String)
      → get redis vectors embedding codec settings now query ns w ≡ (miss vectors, w)
  unfolding get semantic_match
  get_unreached query ns =
      elim (settings.enabled && not (is_empty (strip query)))
        as (λ b.
          if◌then◌else◌ {A = CacheResult vectors × World redis vectors embedding} b
            (look_up redis vectors embedding codec settings now (strip query) ns w)
            (miss vectors, w)
          ≡ (miss vectors, w)) [
            | true ↦ simp (
              exact_match_down redis codec w.client d vectors settings.ttl now (strip query) ns,
              cut,
              increment_stats_down redis codec w.client d "misses",
            )
            | false ↦ refl
          ]

  -- While neither can be reached, storing a response that is not blank reports success all the same,
  -- where the cache is on, and stores nothing: all stays as it was.
  pub set_unheard :
      (query response model : Text) (tokens : ℕ) (ns : Option String) (metadata : Dict Datum)
      → settings.enabled ≡ true
      → is_empty query ≡ false
      → is_empty response ≡ false
      → set redis vectors embedding codec settings now query response model tokens ns metadata w
        ≡ (true, w)
  unfolding set store_semantic
  set_unheard query response model tokens ns metadata on asked answered = simp (
    on,
    asked,
    answered,
    store_exact_down redis codec w.client d,
    cut,
    increment_stats_down redis codec w.client d "stored",
  )
