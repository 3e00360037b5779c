-- ===== src/Cache/Semantic.antt =====
-- ai/semantic_cache.py: the embeddings and the level of similar queries, `_load_model`, `generate`,
-- `_semantic_match`, `_store_semantic` and `_ensure_collection`.
use ai_chat_bot_v.Base.{
  Bool, true, false, Option, none, some, List, [], ◌∷◌, String, any, str_eq, take, if◌then◌else◌,
}
use ai_chat_bot_v.Base.Text.{Text, codes}
use ai_chat_bot_v.Base.Dict.{Dict, lookup, insert}
use ai_chat_bot_v.Cache.{
  Datum, text, number, truthy, VectorStore, Embedding, Settings, Hit, semantic_hit, CacheResult,
  miss, CacheEntry,
}

module _ (vectors : VectorStore) (embedding : Embedding vectors) where
  open vectors use {Store, Vector, Score}
  open embedding use {Model}

  -- The model is kept once it is loaded; otherwise every call tries again.
  abbrev pub load_model : Option Model → Option Model
  load_model (some m) = some m
  load_model none = embedding.load

  abbrev pub or_fallback : Text → Option Vector → Vector
  or_fallback t (some v) = v
  or_fallback t none = embedding.fallback t

  -- The fallback of an encoding that fails gets the text that was cut.
  abbrev pub encoded : Option Model → Text → Vector
  encoded none t = embedding.fallback t
  encoded (some m) t = or_fallback (take 2048 t) (embedding.encode m (take 2048 t))

  unfoldable pub generate : Text → Option Model → Vector × Option Model
  generate t model = (encoded (load_model model) t, load_model model)

  module _ (settings : Settings vectors) where
    open settings use {threshold, collection}

    abbrev pub found_similar : Hit Score → Dict Datum → CacheResult vectors
    found_similar best payload =
        if truthy (lookup "response" payload)
        then record {
          hit = true;
          response = lookup "response" payload;
          similarity_score = best.score;
          hit_type = semantic_hit;
          cached_query = lookup "query" payload;
          entry_id = some best.id;
        }
        else miss vectors

    -- `best.payload or {}`
    abbrev pub by_payload : Hit Score → Option (Dict Datum) → CacheResult vectors
    by_payload best none = miss vectors
    by_payload best (some payload) = found_similar best payload

    -- An exception, no hit, or the first hit.
    abbrev pub by_hits : Option (List (Hit Score)) → CacheResult vectors
    by_hits none = miss vectors
    by_hits (some []) = miss vectors
    by_hits (some (best ∷ hits)) = by_payload best best.payload

    unfoldable pub semantic_match :
        Text
        → (namespace : Option String) → Store
        → Option Model
        → CacheResult vectors × Option Model
    unfolding generate
    semantic_match query namespace store model =
        let (v, model') = generate query model in
        if vectors.connects store
        then (by_hits (vectors.search collection v threshold namespace store), model')
        else (miss vectors, model)

    -- The payload of an entry, whose metadata may take the place of the other fields.
    abbrev pub update : Dict Datum → Dict Datum → Dict Datum
    update d [] = d
    update d ((k, v) ∷ rest) = update (insert k v d) rest

    -- `namespace or "default"`
    abbrev pub or_default : Option String → String
    or_default none = "default"
    or_default (some ns) = ns

    abbrev pub payload_of : CacheEntry → Option String → Dict Datum
    payload_of e namespace =
        update
          (("query", text e.query)
            ∷ ("response", text e.response)
            ∷ ("model", text e.model)
            ∷ ("tokens_used", number e.tokens_used)
            ∷ ("created_at", text e.created_at)
            ∷ ("namespace", text (codes (or_default namespace)))
            ∷ [])
          e.metadata

    unfoldable pub store_semantic :
        Text
        → CacheEntry
        → (entry_id : String) → (namespace : Option String) → Store
        → Option Model
        → Bool × Store × Option Model
    unfolding generate
    store_semantic query e entry_id namespace store model =
        let (v, model') = generate query model in
        let (done, store') = vectors.upsert collection entry_id v (payload_of e namespace) store in
        if vectors.connects store then (done, store', model') else (false, store, model)

    abbrev pub create_missing : Option (List String) → Store → Store
    create_missing none store = store
    create_missing (some names) store =
        if any (str_eq collection) names
        then store
        else (vectors.create_collection collection store).1

    unfoldable pub ensure_collection : Store → Store
    ensure_collection store =
        if vectors.connects store
        then create_missing (vectors.get_collections store) store
        else store
