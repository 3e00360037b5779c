-- ===== src/Cache/Recall.antt =====
-- ai/semantic_cache.py: what was stored is found again.
use ai_chat_bot_v.Base.{
  ℕ, ◌≡◌, refl, sym, ap, ◌∙◌, Bool, true, false, ◌||◌, Option, none, some, [], ◌∷◌, String,
}
use ai_chat_bot_v.Base.Text.{Text, codes, strip, is_empty}
use ai_chat_bot_v.Base.Dict.{Dict, lookup}
use mathlib.Core.Path.{subst}
use ai_chat_bot_v.RedisClient.Server.{RedisServer}
use ai_chat_bot_v.RedisClient.{Client}
use ai_chat_bot_v.Cache.{
  Datum, text, Codec, VectorStore, Embedding, Settings, CacheResult, CacheEntry,
}
use ai_chat_bot_v.Cache.Exact.{store_exact}
use ai_chat_bot_v.Cache.Semantic.{
  load_model, encoded, generate, semantic_match, payload_of, store_semantic,
}
use ai_chat_bot_v.Cache.Lookup.{World, make_id, count_stored, get, set}
use ai_chat_bot_v.Cache.Laws.{Reads, OwnEntries}
use ai_chat_bot_v.Cache.Kept.{increment_stats-Holds, store_exact-Holds}
use ai_chat_bot_v.Cache.Answers.{found_in_store, get-found_in_store}

-- A vector database that is reached and whose collection is empty: it takes a point, and then finds it
-- by its own vector (whose similarity with itself is the greatest) in its namespace.
pub record Remembers (vectors : VectorStore) (settings : Settings vectors) : Type 1 where
  pub Empty : vectors.Store → Type 0
  pub linked : (s : vectors.Store) → Empty s → vectors.connects s ≡ true
  pub upsert_done :
      (id : String) (v : vectors.Vector) (p : Dict Datum) (s : vectors.Store)
      → Empty s
      → (vectors.upsert settings.collection id v p s).0 ≡ true
  pub still_linked :
      (id : String) (v : vectors.Vector) (p : Dict Datum) (s : vectors.Store)
      → Empty s
      → vectors.connects (vectors.upsert settings.collection id v p s).1 ≡ true
  pub search_upserted :
      (id ns : String) (v : vectors.Vector) (p : Dict Datum) (s : vectors.Store)
      → Empty s
      → lookup "namespace" p ≡ some (text (codes ns))
      → vectors.search settings.collection v settings.threshold
          (some ns)
          (vectors.upsert settings.collection id v p s).1
        ≡ some (record { id = id; score = vectors.exact_score; payload = some p } ∷ [])

or_true : (a b : Bool) → b ≡ true → (a || b) ≡ true
or_true true b e = refl
or_true false b e = e

module _ (redis : RedisServer) (vectors : VectorStore) (embedding : Embedding vectors)
    (codec : Codec) (settings : Settings vectors) (now : Text) where
  load_model_idem :
      (m : Option embedding.Model)
      → load_model vectors embedding (load_model vectors embedding m)
        ≡ load_model vectors embedding m
  load_model_idem (some m) = refl
  load_model_idem none = loaded embedding.load refl
    where
      loaded :
          (o : Option embedding.Model)
          → embedding.load ≡ o
          → load_model vectors embedding o ≡ embedding.load
      loaded none e = refl
      loaded (some m) e = sym e

  nonblank : (q : Text) → is_empty (strip q) ≡ false → is_empty q ≡ false
  unfolding strip
  nonblank [] h = h
  nonblank (c ∷ t) h = refl

  abbrev IsStored :
      Bool → World redis vectors embedding → Bool × World redis vectors embedding → Type 0
  IsStored b w r = (r.0 ≡ b) × (r.1.store ≡ w.store) × (r.1.model ≡ w.model)

  count_stored_keeps :
      (b : Bool) (w : World redis vectors embedding)
      → IsStored b w (count_stored redis vectors embedding codec settings now b w)
  count_stored_keeps true w = (refl, refl, refl)
  count_stored_keeps false w = (refl, refl, refl)

  kept_at :
      (a b : Bool) (w : World redis vectors embedding)
      → b ≡ true
      → IsStored true w (count_stored redis vectors embedding codec settings now (a || b) w)
  kept_at a b w e =
      subst (λ c. IsStored c w (count_stored redis vectors embedding codec settings now (a || b) w))
        (or_true a b e) (count_stored_keeps (a || b) w)

  module _ (own : OwnEntries redis codec) (reads : Reads codec)
      (remembers : Remembers vectors settings) where
    count_stored-Holds :
        (b : Bool) (w : World redis vectors embedding)
        → own.Holds w.client.server
        → own.Holds (count_stored redis vectors embedding codec settings now b w).1.client.server
    count_stored-Holds true w h = increment_stats-Holds redis codec own "stored" w.client h
    count_stored-Holds false w h = h

    module _ (query response model : Text) (tokens : ℕ) (ns : String)
        (w : World redis vectors embedding) (on : settings.enabled ≡ true)
        (asked : is_empty (strip query) ≡ false) (answered : is_empty response ≡ false)
        (empty : remembers.Empty w.store) (h : own.Holds w.client.server) where
      abbrev entry : CacheEntry
      entry = record {
        query = strip query;
        response = response;
        model = model;
        tokens_used = tokens;
        created_at = now;
        metadata = [];
      }

      abbrev id : String
      id = make_id redis vectors embedding codec settings now (strip query) (some ns)

      abbrev vector : vectors.Vector
      vector = encoded vectors embedding (load_model vectors embedding w.model) (strip query)

      abbrev upserted : Bool × vectors.Store
      upserted =
          vectors.upsert settings.collection id vector
            (payload_of vectors embedding settings entry (some ns)) w.store

      abbrev after_set : Bool × World redis vectors embedding
      after_set =
          set redis vectors embedding codec settings now query response model tokens (some ns) [] w

      abbrev in_redis : Bool × Client redis
      in_redis = store_exact redis codec settings.ttl (strip query) entry id (some ns) w.client

      abbrev written : World redis vectors embedding
      written = record {
        client = in_redis.1;
        store = upserted.1;
        model = load_model vectors embedding w.model;
      }

      store_semantic_done :
          store_semantic vectors embedding settings (strip query) entry id (some ns) w.store w.model
          ≡ (upserted.0, upserted.1, load_model vectors embedding w.model)
      unfolding store_semantic generate
      store_semantic_done = rw (remembers.linked w.store empty)

      set_writes :
          after_set
          ≡ count_stored redis vectors embedding codec settings now
              (in_redis.0 || upserted.0)
              written
      unfolding set
      set_writes = simp (on, nonblank query asked, answered, store_semantic_done)

      kept : IsStored true written after_set
      kept = subst (IsStored true written) (sym set_writes) (
          kept_at in_redis.0 upserted.0 written (
            remembers.upsert_done id vector (payload_of vectors embedding settings entry (some ns))
              w.store empty))

      set-Holds : own.Holds after_set.1.client.server
      set-Holds =
          subst (λ r. own.Holds r.1.client.server) (sym set_writes)
            (count_stored-Holds (in_redis.0 || upserted.0) written (
              store_exact-Holds redis codec own settings.ttl (strip query) entry id (some ns)
                w.client h))

      abbrev found : CacheResult vectors
      found =
          found_in_store redis vectors embedding codec settings now query (some ns) upserted.1
            (load_model vectors embedding w.model)

      found_again : (found.hit ≡ true) × (found.response ≡ some (text response))
      unfolding found_in_store semantic_match generate
      found_again =
          simp
            (
              on,
              asked,
              load_model_idem w.model,
              remembers.still_linked id vector
                  (payload_of vectors embedding settings entry (some ns)) w.store empty,
              remembers.search_upserted id ns vector
                  (payload_of vectors embedding settings entry (some ns)) w.store empty refl,
              answered,
            )
            (refl, refl)

      -- Where the cache is enabled, the vector database is reached and its collection is empty, Redis
      -- holds only the cache's own entries and JSON reads back a dict from what it wrote of one, a
      -- response that is not empty, stored without metadata for a query that is not blank in a given
      -- namespace, is what the same query in the same namespace is answered with: storing succeeds, and
      -- the lookup that follows is a hit with that response.
      pub get-set :
          (after_set.0 ≡ true)
          × ((get redis vectors embedding codec settings now query (some ns) after_set.1).0.hit
              ≡ true)
          × ((get redis vectors embedding codec settings now query (some ns) after_set.1).0.response
              ≡ some (text response))
      get-set =
          let same =
            get-found_in_store redis vectors embedding codec settings now own reads query (some ns)
              after_set.1 set-Holds in
          let here =
            ap
              (λ (s : vectors.Store).
                found_in_store redis vectors embedding codec settings now query (some ns) s
                  after_set.1.model)
              kept.1
            ∙ ap
                (λ (m : Option embedding.Model).
                  found_in_store redis vectors embedding codec settings now query (some ns)
                    upserted.1 m)
                kept.2 in
          (
            kept.0,
            ap (λ (r : CacheResult vectors). r.hit) (same ∙ here) ∙ found_again.0,
            ap (λ (r : CacheResult vectors). r.response) (same ∙ here) ∙ found_again.1,
          )
