-- ===== src/Cache/Lookup.antt =====
-- ai/semantic_cache.py: the class `SemanticCache` with `get`, `set`, `invalidate`, `flush` and
-- `get_stats`, and the functions at the end of the module. A namespace that is empty counts as none:
-- `flush` says so itself, and the other operations are given `none` for it.
use ai_chat_bot_v.Base.{
  ℕ, Bool, true, false, not, ◌||◌, ◌&&◌, Option, none, some, List, [], ◌∷◌, ◌++◌, String, str_eq,
  if◌then◌else◌,
}
use ai_chat_bot_v.Base.Int.{ℤ, pos, ◌+ℤ◌}
use ai_chat_bot_v.Base.Text.{Text, codes, strip, is_empty}
use ai_chat_bot_v.Base.Dict.{Dict, get_or}
use Prim.Native.String.{◌++◌ as ◌<>◌}
use ai_chat_bot_v.RedisClient.Server.{RedisServer}
use ai_chat_bot_v.RedisClient.{Returned, ret, raised, Client, delete, keys, hgetall, get_redis}
use ai_chat_bot_v.Cache.{
  Datum, Codec, VectorStore, Embedding, Settings, CacheResult, miss, CacheEntry,
}
use ai_chat_bot_v.Cache.Exact.{exact_key, exact_match, increment_stats, store_exact}
use ai_chat_bot_v.Cache.Semantic.{semantic_match, store_semantic, ensure_collection}

-- Redis, the vector database and the embedding model as the cache holds them.
module _ (redis : RedisServer) (vectors : VectorStore) (embedding : Embedding vectors) where
  pub record World : Type 0 where
    pub client : Client redis
    pub store : vectors.Store
    pub model : Option embedding.Model

  module _ (codec : Codec) (settings : Settings vectors) (now : Text) where
    abbrev pub count_hits : String → World → World
    count_hits kind w = record w {
      client = increment_stats redis codec kind (increment_stats redis codec "hits" w.client);
    }

    abbrev pub after_similar : CacheResult vectors → World → CacheResult vectors × World
    after_similar r w =
        if r.hit
        then (r, count_hits "semantic_hits" w)
        else (miss vectors, record w { client = increment_stats redis codec "misses" w.client })

    abbrev pub search_similar : Text → Option String → World → CacheResult vectors × World
    search_similar query namespace w =
        let (r, model') =
          semantic_match vectors embedding settings query namespace w.store w.model in
        after_similar r (record w { model = model' })

    abbrev pub after_exact :
        Text → Option String → CacheResult vectors → World → CacheResult vectors × World
    after_exact query namespace r w =
        if r.hit then (r, count_hits "exact_hits" w) else search_similar query namespace w

    -- A query that is stripped already.
    abbrev pub look_up : Text → Option String → World → CacheResult vectors × World
    look_up query namespace w =
        let (r, c) = exact_match redis codec vectors settings.ttl now query namespace w.client in
        after_exact query namespace r (record w { client = c })

    unfoldable pub get : Text → (namespace : Option String) → World → CacheResult vectors × World
    get query namespace w =
        if settings.enabled && not (is_empty (strip query))
        then look_up (strip query) namespace w
        else (miss vectors, w)

    -- The key of an entry in the vector database.
    abbrev pub make_id : Text → Option String → String
    make_id query none = codec.uuid (codec.sha256 (codes "default:" ++ strip (codec.lower query)))
    make_id query (some ns) =
        codec.uuid (codec.sha256 (codes ns ++ (codes ":" ++ strip (codec.lower query))))

    abbrev pub count_stored : Bool → World → Bool × World
    count_stored true w =
        (true, record w { client = increment_stats redis codec "stored" w.client })
    count_stored false w = (false, w)

    abbrev pub store_entry : CacheEntry → Option String → World → Bool × World
    store_entry e namespace w =
        let id = make_id e.query namespace in
        let (in_redis, c) = store_exact redis codec settings.ttl e.query e id namespace w.client in
        let (in_store, store', model') =
          store_semantic vectors embedding settings e.query e id namespace w.store w.model in
        count_stored (in_redis || in_store) (record { client = c; store = store'; model = model' })

    unfoldable pub set :
        (query response model : Text)
        → (tokens_used : ℕ) → (namespace : Option String) → (metadata : Dict Datum) → World
        → Bool × World
    set query response model tokens_used namespace metadata w =
        if settings.enabled && not (is_empty query || is_empty response)
        then store_entry
            (record {
              query = strip query;
              response = response;
              model = model;
              tokens_used = tokens_used;
              created_at = now;
              metadata = metadata;
            })
            namespace w
        else (false, w)

    -- `redis.delete` raised nothing.
    abbrev pub wrote_any : Returned ℕ → Bool
    wrote_any (ret n) = true
    wrote_any raised = false

    unfoldable pub invalidate : Text → (namespace : Option String) → World → Bool × World
    invalidate query namespace w =
        let (has, c1) = get_redis redis w.client in
        let id = make_id (strip query) namespace in
        let (r, c2) =
          delete redis (exact_key redis codec (strip query) namespace ∷ ("scache:meta:" <> id) ∷ [])
            c1 in
        let (done, store') = vectors.remove settings.collection id w.store in
        let linked = vectors.connects w.store in
        (
          (has && wrote_any r) || (linked && done),
          record w { client = if has then c2 else c1; store = if linked then store' else w.store },
        )

    -- An exception ends the deletion, and is logged.
    abbrev pub delete_found : Returned (List String) × Client redis → Client redis
    delete_found (raised, c) = c
    delete_found (ret [], c) = c
    delete_found (ret (k ∷ ks), c) = (delete redis (k ∷ ks) c).1

    abbrev pub delete_both : List String → Returned (List String) × Client redis → Client redis
    delete_both ks (raised, c) = c
    delete_both ks (ret ms, c) = delete_found (ret (ks ++ ms), c)

    abbrev pub delete_all : Returned (List String) × Client redis → Client redis
    delete_all (raised, c) = c
    delete_all (ret ks, c) = delete_both ks (keys redis "scache:meta:*" c)

    abbrev pub drop_collection : vectors.Store → vectors.Store
    drop_collection store =
        let (done, store') = vectors.delete_collection settings.collection store in
        if vectors.connects store
        then (if done then ensure_collection vectors embedding settings store' else store')
        else store

    abbrev pub flush_namespace : (namespace : String) → World → Bool × World
    flush_namespace ns w =
        let (has, c) = get_redis redis w.client in
        (
          true,
          record w {
            client = if has then delete_found (keys redis ("scache:exact:" <> ns <> ":*") c) else c;
          },
        )

    abbrev pub flush_all : World → Bool × World
    flush_all w =
        let (has, c) = get_redis redis w.client in
        (
          true,
          record w {
            client = if has then delete_all (keys redis "scache:exact:*" c) else c;
            store = drop_collection w.store;
          },
        )

    -- It says that it succeeded in every case.
    unfoldable pub flush : (namespace : Option String) → World → Bool × World
    flush (some ns) w = if str_eq ns "" then flush_all w else flush_namespace ns w
    flush none w = flush_all w

    pub record CacheStats : Type 0 where
      pub hits : ℤ
      pub misses : ℤ
      pub exact_hits : ℤ
      pub semantic_hits : ℤ
      pub stored : ℤ
      pub total_requests : ℤ

    abbrev pub stats_of : Dict ℤ → CacheStats
    stats_of raw =
        let of = λ (k : String). get_or k raw (pos 0) in
        record {
          hits = of "hits";
          misses = of "misses";
          exact_hits = of "exact_hits";
          semantic_hits = of "semantic_hits";
          stored = of "stored";
          total_requests = of "hits" +ℤ of "misses";
        }

    abbrev pub read_stats : Returned (Dict ℤ) × Client redis → Option CacheStats × Client redis
    read_stats (raised, c) = (none, c)
    read_stats (ret raw, c) = (some (stats_of raw), c)

    -- `none` is the answer with an error; the rate, the threshold and the lifetime are left out.
    unfoldable pub get_stats : Client redis → Option CacheStats × Client redis
    get_stats c =
        let (has, c1) = get_redis redis c in
        if has then read_stats (hgetall redis "scache:stats" c1) else (none, c1)

    unfoldable pub semantic_cache_lookup :
        Text → (namespace : Option String) → World → Option Datum × World
    unfolding get
    semantic_cache_lookup query namespace w =
        let (r, w') = get query namespace w in (if r.hit then r.response else none, w')

    unfoldable pub cache_response :
        (query response model : Text)
        → (tokens_used : ℕ) → (namespace : Option String) → World
        → Bool × World
    unfolding set
    cache_response query response model tokens_used namespace w =
        set query response model tokens_used namespace [] w
