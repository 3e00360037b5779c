-- ===== src/Cache.antt =====
-- ai/semantic_cache.py: the entries and results of the cache, and what it takes from outside: JSON,
-- SHA-256, the embedding model and the vector database, which are parameters.
pub mod Exact
pub mod Semantic
pub mod Lookup
pub mod Laws
pub mod Answers
pub mod Kept
pub mod Recall
pub mod Outage
mod Examples
use ai_chat_bot_v.Base.{
  ℕ, Bool, true, false, ◌&&◌, not, ◌==◌, Option, none, some, List, [], ◌∷◌, String,
}
use ai_chat_bot_v.Base.Int.{ℤ, pos}
use ai_chat_bot_v.Base.Text.{Text, codes, is_empty}
use ai_chat_bot_v.Base.Dict.{Dict}

-- A value of JSON in an entry or a payload; a list or a nested object is passed on unread.
pub data Datum : Type 0 where
  null : Datum
  text : Text → Datum
  number : ℕ → Datum
  opaque : (filled : Bool) → ℕ → Datum

pub data Json : Type 0 where
  datum : Datum → Json
  object : Dict Datum → Json

-- `bool(v)`
abbrev pub truthy : Option Datum → Bool
truthy none = false
truthy (some null) = false
truthy (some (text t)) = not (is_empty t)
truthy (some (number n)) = not (n == 0)
truthy (some (opaque filled n)) = filled

-- `json.loads`, whose error is `none`, `json.dumps` of a dict, the hexadecimal digits of a SHA-256
-- sum, the UUID of its first 32 digits, and `str.lower`.
pub record Codec : Type 0 where
  pub loads : Text → Option Json
  pub dumps : Dict Datum → String
  pub sha256 : Text → String
  pub uuid : String → String
  pub lower : Text → Text

pub record Hit (Score : Type 0) : Type 0 where
  pub id : String
  pub score : Score
  pub payload : Option (Dict Datum)

-- The vector database: whether a client of it can be made, and the calls of that client, which raise
-- (`none`, or `false`) or answer. A search is asked for one hit.
pub record VectorStore : Type 1 where
  pub Store : Type 0
  pub Vector : Type 0
  pub Score : Type 0
  pub zero_score : Score
  pub exact_score : Score
  pub connects : Store → Bool
  pub get_collections : Store → Option (List String)
  pub create_collection : String → Store → Bool × Store
  pub delete_collection : String → Store → Bool × Store
  pub search :
      (collection : String)
      → Vector
      → (threshold : Score) → (namespace : Option String) → Store
      → Option (List (Hit Score))
  pub upsert : (collection id : String) → Vector → (payload : Dict Datum) → Store → Bool × Store
  pub remove : (collection id : String) → Store → Bool × Store

-- The sentence transformer: loading it may fail, an encoding may raise, and the fallback is a vector
-- of the sum of the text.
pub record Embedding (vectors : VectorStore) : Type 1 where
  pub Model : Type 0
  pub load : Option Model
  pub encode : Model → Text → Option vectors.Vector
  pub fallback : Text → vectors.Vector

pub record Settings (vectors : VectorStore) : Type 0 where
  pub enabled : Bool
  pub threshold : vectors.Score
  pub ttl : ℕ
  pub collection : String

pub data HitType : Type 0 where
  no_hit : HitType
  exact_hit : HitType
  semantic_hit : HitType

pub record CacheResult (vectors : VectorStore) : Type 0 where
  pub hit : Bool
  pub response : Option Datum
  pub similarity_score : vectors.Score
  pub hit_type : HitType
  pub cached_query : Option Datum
  pub entry_id : Option String

-- `CacheResult(hit=False)`
abbrev pub miss : (vectors : VectorStore) → CacheResult vectors
miss vectors = record {
  hit = false;
  response = none;
  similarity_score = vectors.zero_score;
  hit_type = no_hit;
  cached_query = none;
  entry_id = none;
}

pub record CacheEntry : Type 0 where
  pub query : Text
  pub response : Text
  pub model : Text
  pub tokens_used : ℕ
  pub created_at : Text
  pub metadata : Dict Datum
