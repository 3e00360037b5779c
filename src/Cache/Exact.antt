-- ===== src/Cache/Exact.antt =====
-- ai/semantic_cache.py: the level of exact matches in Redis, `_get_redis`, `_exact_key`,
-- `_exact_match`, `_store_exact` and the counters.
use ai_chat_bot_v.Base.{
  ℕ, ◌+◌, Bool, true, false, not, Option, none, some, [], ◌∷◌, String, if◌then◌else◌,
}
use ai_chat_bot_v.Base.Int.{pos}
use ai_chat_bot_v.Base.Text.{Text, codes}
use ai_chat_bot_v.Base.Dict.{Dict, lookup, insert}
use Prim.Native.String.{◌++◌ as ◌<>◌}
use ai_chat_bot_v.RedisClient.Server.{Value, RedisServer}
use ai_chat_bot_v.RedisClient.Server as Server
use ai_chat_bot_v.RedisClient.{Returned, ret, raised, Client, get, setex, hincrby, get_redis}
use ai_chat_bot_v.Cache.{
  Datum, text, number, opaque, Json, datum, object, truthy, Codec, VectorStore, exact_hit,
  CacheResult, miss, CacheEntry,
}

module _ (redis : RedisServer) (codec : Codec) where
  abbrev pub exact_key : (query : Text) → (namespace : Option String) → String
  exact_key query none = "scache:exact:" <> codec.sha256 (codec.lower query)
  exact_key query (some ns) = "scache:exact:" <> ns <> ":" <> codec.sha256 (codec.lower query)

  -- What the client's `get` makes of a value that is stored: JSON where it can be parsed, and the text
  -- otherwise.
  abbrev pub parsed : Value → Json
  parsed (Server.number (pos n)) = datum (number n)
  parsed (Server.number n) = datum (opaque true 0)
  parsed (Server.text s) = elim (codec.loads (codes s)) [
    | none ↦ datum (text (codes s))
    | some j ↦ j
  ]

  -- `json.loads(data)` of what is parsed already: only a text can be loaded, all else is a TypeError.
  abbrev pub loads_again : Json → Option Json
  loads_again (datum (text t)) = codec.loads t
  loads_again (datum d) = none
  loads_again (object d) = none

  -- `not data`
  abbrev pub is_false : Json → Bool
  is_false (datum d) = not (truthy (some d))
  is_false (object []) = true
  is_false (object (f ∷ fs)) = false

  -- `self._increment_stats(stat)`: no exception leaves it.
  unfoldable pub increment_stats : String → Client redis → Client redis
  increment_stats stat c =
      let (has, c1) = get_redis redis c in
      if has then (hincrby redis "scache:stats" stat (pos 1) c1).1 else c1

  -- `entry_data.get("hit_count", 0) + 1`, a TypeError where there is something else.
  abbrev pub next_count : Option Datum → Option ℕ
  next_count none = some 1
  next_count (some (number n)) = some (n + 1)
  next_count (some d) = none

  module _ (vectors : VectorStore) (ttl : ℕ) (now : Text) where
    abbrev pub found_exact : Dict Datum → CacheResult vectors
    found_exact entry = record {
      hit = true;
      response = lookup "response" entry;
      similarity_score = vectors.exact_score;
      hit_type = exact_hit;
      cached_query = lookup "query" entry;
      entry_id = none;
    }

    abbrev pub after_write :
        CacheResult vectors → Returned Bool × Client redis → CacheResult vectors × Client redis
    after_write found (ret b, c) = (found, c)
    after_write found (raised, c) = (miss vectors, c)

    -- The entry is written back with its count and the time.
    abbrev pub count_hit :
        (key : String) → Dict Datum → Option ℕ → Client redis → CacheResult vectors × Client redis
    count_hit key entry none c = (miss vectors, c)
    count_hit key entry (some n) c =
        let entry' = insert "last_accessed" (text now) (insert "hit_count" (number n) entry) in
        after_write (found_exact entry) (setex redis key ttl (Server.text (codec.dumps entry')) c)

    abbrev pub by_entry :
        (key : String) → Option Json → Client redis → CacheResult vectors × Client redis
    by_entry key none c = (miss vectors, c)
    by_entry key (some (datum d)) c = (miss vectors, c)
    by_entry key (some (object entry)) c =
        if truthy (lookup "response" entry)
        then count_hit key entry (next_count (lookup "hit_count" entry)) c
        else (miss vectors, c)

    abbrev pub by_value :
        (key : String) → Returned (Option Value) × Client redis → CacheResult vectors × Client redis
    by_value key (raised, c) = (miss vectors, c)
    by_value key (ret none, c) = (miss vectors, c)
    by_value key (ret (some v), c) =
        if is_false (parsed v) then (miss vectors, c) else by_entry key (loads_again (parsed v)) c

    unfoldable pub exact_match :
        (query : Text)
        → (namespace : Option String) → Client redis
        → CacheResult vectors × Client redis
    exact_match query namespace c =
        let (has, c1) = get_redis redis c in
        let key = exact_key query namespace in
        if has then by_value key (get redis key c1) else (miss vectors, c1)

  abbrev pub entry_data : CacheEntry → (entry_id : String) → Dict Datum
  entry_data e entry_id =
      ("query", text e.query)
      ∷ ("response", text e.response)
      ∷ ("model", text e.model)
      ∷ ("tokens_used", number e.tokens_used)
      ∷ ("created_at", text e.created_at)
      ∷ ("hit_count", number 0)
      ∷ ("entry_id", text (codes entry_id))
      ∷ []

  -- An answer of `setex` is not looked at.
  abbrev pub wrote : Returned Bool → Bool
  wrote (ret b) = true
  wrote raised = false

  unfoldable pub store_exact :
      (ttl : ℕ)
      → (query : Text) → CacheEntry
      → (entry_id : String) → (namespace : Option String) → Client redis
      → Bool × Client redis
  store_exact ttl query e entry_id namespace c =
      let (has, c1) = get_redis redis c in
      let (r, c2) =
        setex redis (exact_key query namespace) ttl
          (Server.text (codec.dumps (entry_data e entry_id))) c1 in
      if has then (wrote r, c2) else (false, c1)
