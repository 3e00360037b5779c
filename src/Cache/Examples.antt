-- ===== src/Cache/Examples.antt =====
-- ai/semantic_cache.py at concrete inputs: a server that takes every command and keeps no value, and a
-- vector database that keeps its last point and finds it by its own vector.
use ai_chat_bot_v.Base.{ℕ, ◌≡◌, refl, Bool, true, false, none, some, List, [], ◌∷◌}
use ai_chat_bot_v.Base.Text.{Text, codes, strip, is_space}
use ai_chat_bot_v.Base.Dict.{Dict}
use ai_chat_bot_v.RedisClient.Server.{reply, Value, RedisServer, IsDown}
use ai_chat_bot_v.RedisClient.Server as Server
use ai_chat_bot_v.RedisClient.Sample.{sample, contents}
use ai_chat_bot_v.Cache.{Datum, text, object, Codec, Hit, VectorStore, Embedding, Settings}
use ai_chat_bot_v.Cache.Lookup.{World, get, set, flush}
use ai_chat_bot_v.Cache.Laws.{Reads, OwnEntries}
use ai_chat_bot_v.Cache.Answers.{found_in_store, get-found_in_store, get-flush}
use ai_chat_bot_v.Cache.Recall.{Remembers, get-set}

-- One dict stands for all that are written.
abbrev the_entry : Dict Datum
the_entry = ("response", text (codes "old")) ∷ []

abbrev codec : Codec
codec = record {
  loads = λ t. some (object the_entry);
  dumps = λ d. "{}";
  sha256 = λ t. "hash";
  uuid = λ s. "id";
  lower = λ t. t;
}

own_text : {v : Value} → reply (some (Server.text "{}")) ≡ reply (some v) → v ≡ Server.text "{}"
own_text e = cc

-- A server every key of which holds an entry.
abbrev full : RedisServer
full = record sample { get = λ k s. (reply (some (Server.text "{}")), s) }

abbrev full_own : OwnEntries full codec
full_own = record {
  Holds = λ s. Unit {0};
  connect_holds = λ s h. h;
  ping_holds = λ s h. h;
  keys_holds = λ p s h. h;
  delete_holds = λ ks s h. h;
  set_holds = λ k d ttl s h. h;
  hincrby_holds = λ k f n s h. h;
  get_own = λ k s v h e. (the_entry, own_text e);
}

abbrev codec_reads : Reads codec
codec_reads = record { loads-dumps = λ d. (the_entry, refl) }

-- A vector database that is reached or not, and keeps the points it was given.
abbrev points : VectorStore
points = record {
  Store = Bool × List (Hit ℕ);
  Vector = Text;
  Score = ℕ;
  zero_score = 0;
  exact_score = 100;
  connects = λ s. s.0;
  get_collections = λ s. some ("semantic_query_cache" ∷ []);
  create_collection = λ c s. (true, s);
  delete_collection = λ c s. (true, (s.0, []));
  search = λ c v t ns s. some s.1;
  upsert = λ c id v p s. (s.0, (s.0, record { id = id; score = 100; payload = some p } ∷ []));
  remove = λ c id s. (s.0, (s.0, []));
}

abbrev embedding : Embedding points
embedding = record { Model = Unit; load = none; encode = λ m t. none; fallback = λ t. t }

abbrev settings : Settings points
settings = record {
  enabled = true;
  threshold = 92;
  ttl = 3600;
  collection = "semantic_query_cache";
}

abbrev remembers : Remembers points settings
remembers = record {
  Empty = λ s. s.0 ≡ true;
  linked = λ s e. e;
  upsert_done = λ id v p s e. e;
  still_linked = λ id v p s e. e;
  search_upserted = λ id ns v p s e f. refl;
}

abbrev SampleWorld : RedisServer → Type 0
SampleWorld redis = World redis points embedding

abbrev fresh : SampleWorld full
fresh = record {
  client = record { connected = true; server = contents true };
  store = (true, []);
  model = none;
}

abbrev cut_off : SampleWorld sample
cut_off = record {
  client = record { connected = true; server = contents false };
  store = (false, []);
  model = none;
}

get-found_in_store_example :
    (get full points embedding codec settings [] (codes " hi ") none fresh).0
    ≡ found_in_store full points embedding codec settings [] (codes " hi ") none (true, []) none
get-found_in_store_example =
    get-found_in_store full points embedding codec settings [] full_own codec_reads (codes " hi ")
      none fresh tt

get-flush_example :
    ((flush full points embedding codec settings [] (some "ann") fresh).0 ≡ true)
    × ((get full points embedding codec settings []
          (codes "hi")
          (some "ann")
          (flush full points embedding codec settings [] (some "ann") fresh).1).0
        ≡ (get full points embedding codec settings [] (codes "hi") (some "ann") fresh).0)
get-flush_example =
    get-flush full points embedding codec settings [] full_own codec_reads "ann" (codes "hi")
      (some "ann") fresh refl tt

abbrev stored : Bool × SampleWorld full
stored =
    set full points embedding codec settings [] (codes " hi ") (codes "hello") [] 7 (some "ann") []
      fresh

get-set_example :
    (stored.0 ≡ true)
    × ((get full points embedding codec settings [] (codes " hi ") (some "ann") stored.1).0.hit
        ≡ true)
    × ((get full points embedding codec settings [] (codes " hi ") (some "ann") stored.1).0.response
        ≡ some (text (codes "hello")))
unfolding strip is_space
get-set_example =
    get-set full points embedding codec settings [] full_own codec_reads remembers (codes " hi ")
      (codes "hello") [] 7 "ann" fresh refl refl refl refl tt
