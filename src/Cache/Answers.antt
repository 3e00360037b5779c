-- ===== src/Cache/Answers.antt =====
-- ai/semantic_cache.py: what `get` answers is what the vector database finds, whatever is in Redis;
-- so the flush of a namespace, which deletes keys of Redis only, changes no answer.
use ai_chat_bot_v.Base.{
  ◌≡◌, refl, sym, ap, ◌∙◌, Bool, true, false, not, ◌&&◌, Option, none, some, List, [], ◌∷◌, String,
  str_eq, if◌then◌else◌,
}
use ai_chat_bot_v.Base.Text.{Text, strip, is_empty}
use ai_chat_bot_v.Base.Dict.{Dict, lookup}
use ai_chat_bot_v.RedisClient.Server.{RedisServer}
use ai_chat_bot_v.RedisClient.{Returned, ret, raised, Client, delete, keys, get_redis}
use Prim.Native.String.{◌++◌ as ◌<>◌}
use ai_chat_bot_v.Cache.{
  Datum, truthy, Codec, VectorStore, Embedding, Settings, Hit, CacheResult, miss,
}
use ai_chat_bot_v.Cache.Exact.{exact_match, increment_stats}
use ai_chat_bot_v.Cache.Semantic.{generate, semantic_match, by_hits, by_payload, found_similar}
use ai_chat_bot_v.Cache.Lookup.{
  World, count_hits, after_exact, after_similar, look_up, get, flush_namespace, flush_all, flush,
  delete_found,
}
use ai_chat_bot_v.Cache.Laws.{Reads, OwnEntries, guarded-Holds, get_redis-Holds, exact_match_misses}

module _ (redis : RedisServer) (vectors : VectorStore) (embedding : Embedding vectors)
    (codec : Codec) (settings : Settings vectors) (now : Text) where
  -- A result that is no hit is the plain miss.
  abbrev IsWhole : CacheResult vectors → Type 0
  IsWhole r = r.hit ≡ false → r ≡ miss vectors

  found_similar-IsWhole :
      (best : Hit vectors.Score) (payload : Dict Datum) (b : Bool)
      → truthy (lookup "response" payload) ≡ b
      → IsWhole (found_similar vectors embedding settings best payload)
  found_similar-IsWhole best payload true e h = absurd (let f : true ≡ false = rw e at h in cc)
  found_similar-IsWhole best payload false e h = rw e

  by_payload-IsWhole :
      (best : Hit vectors.Score) (o : Option (Dict Datum))
      → IsWhole (by_payload vectors embedding settings best o)
  by_payload-IsWhole best none h = refl
  by_payload-IsWhole best (some payload) h =
      found_similar-IsWhole best payload (truthy (lookup "response" payload)) refl h

  by_hits-IsWhole :
      (o : Option (List (Hit vectors.Score))) → IsWhole (by_hits vectors embedding settings o)
  by_hits-IsWhole none h = refl
  by_hits-IsWhole (some []) h = refl
  by_hits-IsWhole (some (best ∷ hits)) h = by_payload-IsWhole best best.payload h

  semantic_match-IsWhole :
      (query : Text) (namespace : Option String) (store : vectors.Store)
      (model : Option embedding.Model)
      → IsWhole (semantic_match vectors embedding settings query namespace store model).0
  unfolding semantic_match
  semantic_match-IsWhole query namespace store model =
      elim (vectors.connects store)
        as (λ b.
          IsWhole
            (if◌then◌else◌ {A = CacheResult vectors × Option embedding.Model} b
              (
                by_hits vectors embedding settings (
                    vectors.search settings.collection (generate vectors embedding query model).0
                      settings.threshold namespace store),
                (generate vectors embedding query model).1,
              )
              (miss vectors, model)).0) [
                | true ↦ by_hits-IsWhole (
                    vectors.search settings.collection (generate vectors embedding query model).0
                      settings.threshold namespace store)
                | false ↦ λ h. refl
              ]

  similar_answer :
      (r : CacheResult vectors) (w : World redis vectors embedding)
      → IsWhole r
      → (after_similar redis vectors embedding codec settings now r w).0 ≡ r
  similar_answer r w whole =
      elim r.hit
          as (λ b.
            r.hit ≡ b
            → (if◌then◌else◌ {A = CacheResult vectors × World redis vectors embedding} b
                (r, count_hits redis vectors embedding codec settings now "semantic_hits" w)
                (
                  miss vectors,
                  record w { client = increment_stats redis codec "misses" w.client },
                )).0
              ≡ r) [ true ↦ λ e. refl | false ↦ λ e. sym (whole e) ]
        refl

  exact_answer :
      (query : Text) (namespace : Option String) (r : CacheResult vectors)
      (w : World redis vectors embedding)
      → r ≡ miss vectors
      → (after_exact redis vectors embedding codec settings now query namespace r w).0
        ≡ (semantic_match vectors embedding settings query namespace w.store w.model).0
  exact_answer query namespace r w e =
      ap (λ q. (after_exact redis vectors embedding codec settings now query namespace q w).0) e
      ∙ similar_answer (semantic_match vectors embedding settings query namespace w.store w.model).0
          (record w {
            model = (semantic_match vectors embedding settings query namespace w.store w.model).1;
          })
          (semantic_match-IsWhole query namespace w.store w.model)

  -- What the vector database finds for a query, and a miss for a blank one.
  unfoldable pub found_in_store :
      Text → Option String → vectors.Store → Option embedding.Model → CacheResult vectors
  found_in_store query namespace store model =
      if settings.enabled && not (is_empty (strip query))
      then (semantic_match vectors embedding settings (strip query) namespace store model).0
      else miss vectors

  module _ (own : OwnEntries redis codec) (reads : Reads codec) where
    -- As long as Redis holds only what the cache writes there, `get` answers what the vector database
    -- finds for the query, and a miss where the cache is off or the query blank: no entry of Redis is
    -- ever an answer.
    pub get-found_in_store :
        (query : Text) (namespace : Option String) (w : World redis vectors embedding)
        → own.Holds w.client.server
        → (get redis vectors embedding codec settings now query namespace w).0
          ≡ found_in_store query namespace w.store w.model
    unfolding get found_in_store
    get-found_in_store query namespace w h =
        elim (settings.enabled && not (is_empty (strip query)))
          as (λ b.
            (if◌then◌else◌ {A = CacheResult vectors × World redis vectors embedding} b
              (look_up redis vectors embedding codec settings now (strip query) namespace w)
              (miss vectors, w)).0
            ≡ (if b
                then (semantic_match vectors embedding settings (strip query) namespace w.store
                    w.model).0
                else miss vectors)) [
                  | true ↦
                      exact_answer (strip query) namespace
                        (exact_match redis codec vectors settings.ttl now (strip query) namespace
                          w.client).0
                        (record w {
                          client =
                              (exact_match redis codec vectors settings.ttl now (strip query)
                                namespace w.client).1;
                        })
                        (exact_match_misses redis codec own reads vectors now settings.ttl
                          (strip query) namespace w.client h)
                  | false ↦ refl
                ]

    keys_hold :
        (p : String) (c : Client redis) → own.Holds c.server → own.Holds (keys redis p c).1.server
    unfolding keys
    keys_hold p c h =
        guarded-Holds redis codec own [] (redis.keys p) c.connected c.server (own.keys_holds p) h

    found_hold :
        (r : Returned (List String) × Client redis)
        → own.Holds r.1.server
        → own.Holds (delete_found redis vectors embedding codec settings now r).server
    unfolding delete
    found_hold (raised, c) h = h
    found_hold (ret [], c) h = h
    found_hold (ret (k ∷ ks), c) h =
        guarded-Holds redis codec own 0 (redis.delete (k ∷ ks)) c.connected c.server
          (own.delete_holds (k ∷ ks)) h

    flush_namespace-Holds :
        (m : String) (w : World redis vectors embedding)
        → own.Holds w.client.server
        → own.Holds (flush_namespace redis vectors embedding codec settings now m w).1.client.server
    flush_namespace-Holds m w h =
        elim (get_redis redis w.client).0
          as (λ b.
            own.Holds
              (if◌then◌else◌ {A = Client redis} b
                (delete_found redis vectors embedding codec settings now
                  (keys redis ("scache:exact:" <> m <> ":*") (get_redis redis w.client).1))
                (get_redis redis w.client).1).server) [
                  | true ↦
                      found_hold
                        (keys redis ("scache:exact:" <> m <> ":*") (get_redis redis w.client).1)
                        (keys_hold ("scache:exact:" <> m <> ":*") (get_redis redis w.client).1
                          (get_redis-Holds redis codec own w.client h))
                  | false ↦ get_redis-Holds redis codec own w.client h
                ]

    flush_named :
        (m : String) (w : World redis vectors embedding)
        → str_eq m "" ≡ false
        → flush redis vectors embedding codec settings now (some m) w
          ≡ flush_namespace redis vectors embedding codec settings now m w
    unfolding flush
    flush_named m w named =
        ap
          (λ b.
            if b
            then flush_all redis vectors embedding codec settings now w
            else flush_namespace redis vectors embedding codec settings now m w)
          named

    -- The flush of a namespace whose name is not empty says that it succeeded and changes no answer:
    -- every query in every namespace is answered as it was before, as long as Redis holds only what
    -- the cache writes there.
    pub get-flush :
        (m : String) (query : Text) (namespace : Option String) (w : World redis vectors embedding)
        → str_eq m "" ≡ false
        → own.Holds w.client.server
        → ((flush redis vectors embedding codec settings now (some m) w).0 ≡ true)
          × ((get redis vectors embedding codec settings now query namespace
                (flush redis vectors embedding codec settings now (some m) w).1).0
              ≡ (get redis vectors embedding codec settings now query namespace w).0)
    get-flush m query namespace w named h =
        let flushed = flush_namespace redis vectors embedding codec settings now m w in
        rw (flush_named m w named) (
          refl,
          get-found_in_store query namespace flushed.1 (flush_namespace-Holds m w h)
              ∙ sym (get-found_in_store query namespace w h),
        )
