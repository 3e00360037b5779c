-- ===== src/Memory/Service.antt =====
-- long_term_memory.py: storing memories and conversations.
use ai_chat_bot_v.Base.{
  ℕ, Bool, true, false, not, ◌&&◌, ◌||◌, Option, none, some, List, [], ◌∷◌, ◌++◌, String, map,
  filter, any, take, take_last, length, ltb, str_eq, if◌then◌else◌,
}
use ai_chat_bot_v.Base.Text.{Text, codes, strip, is_empty}
use ai_chat_bot_v.Base.Dict.{Dict, insert}
use ai_chat_bot_v.Compressor.{join}
use ai_chat_bot_v.Cache.{Datum, null, text, number}
use ai_chat_bot_v.Memory.{Outside, Row, World}

-- A fact as the model's answer has it: a content and a type that are texts, and an importance that is
-- missing, a number, or nothing that `float` takes.
pub data Importance : Type 0 where
  unsaid : Importance
  hundredths : ℕ → Importance
  unreadable : Importance

pub record Fact : Type 0 where
  pub content : Text
  pub fact_type : String
  pub importance : Importance

pub record Message : Type 0 where
  pub role : Text
  pub content : Text

abbrev fact_types : List String
fact_types = "factual" ∷ "preference" ∷ "procedural" ∷ "emotional" ∷ []

abbrev pub is_fact : Fact → Bool
is_fact f = not (is_empty f.content) && any (str_eq f.fact_type) fact_types

-- `"\n".join` of the messages that have a content, which is cut.
abbrev pub transcript : (cut : ℕ) → (Message → Text) → List Message → Text
transcript cut role_of ms = join (codes "\n") (
    map (λ (m : Message). role_of m ++ (codes ": " ++ take cut m.content))
      (filter (λ (m : Message). not (is_empty m.content)) ms))

module _ (outside : Outside) where
  open outside use {Store, Similarity}

  -- The fields of `metadata` take the place of others of the same name.
  abbrev pub merge : Dict Datum → Dict Datum → Dict Datum
  merge d [] = d
  merge d ((k, v) ∷ rest) = merge (insert k v d) rest

  abbrev pub or_null : Option String → Datum
  or_null none = null
  or_null (some s) = text (codes s)

  module _ (now : ℕ) (iso_now : Text) where
    abbrev pub new_row :
        (id user_id : String)
        → Text
        → (memory_type : String) → (importance : ℕ) → Option String
        → Row outside
    new_row id user_id content memory_type importance thread = record {
      id = id;
      user_id = user_id;
      content = content;
      memory_type = memory_type;
      importance = importance;
      source_thread_id = thread;
      decay_score = outside.new_score;
      access_count = 0;
      last_accessed = none;
      created_at = now;
      is_deleted = false;
    }

    unfoldable pub store_in_db : Row outside → World outside → Bool × World outside
    store_in_db r w =
        if w.database_fails then (false, w) else (true, record w { rows = w.rows ++ (r ∷ []) })

    abbrev pub payload_of : Row outside → Dict Datum → Dict Datum
    payload_of r metadata =
        merge
          (("user_id", text (codes r.user_id))
            ∷ ("content", text r.content)
            ∷ ("memory_type", text (codes r.memory_type))
            ∷ ("importance_score", number r.importance)
            ∷ ("source_thread_id", or_null r.source_thread_id)
            ∷ ("created_at", text iso_now)
            ∷ ("decay_score", number 100)
            ∷ [])
          metadata

    abbrev pub upsert_vector :
        Option outside.Vector → Row outside → Dict Datum → World outside → Bool × World outside
    upsert_vector none r metadata w = (false, w)
    upsert_vector (some v) r metadata w =
        let (done, store') = outside.upsert r.id v (payload_of r metadata) w.store in
        (done, record w { store = store' })

    unfoldable pub store_in_qdrant : Row outside → Dict Datum → World outside → Bool × World outside
    store_in_qdrant r metadata w =
        if outside.connects w.store
        then upsert_vector (outside.embed r.content) r metadata w
        else (false, w)

    abbrev pub id_if : Bool → String → Option String
    id_if stored id = if stored then some id else none

    abbrev pub store_row : Row outside → Dict Datum → World outside → Option String × World outside
    store_row r metadata w =
        let (in_db, w1) = store_in_db r w in
        let (in_qdrant, w2) = store_in_qdrant r metadata w1 in (id_if (in_db || in_qdrant) r.id, w2)

    -- `id` is the new UUID.
    unfoldable pub store_memory :
        (id user_id : String)
        → Text
        → (memory_type : String) → (importance : ℕ) → Option String
        → Dict Datum
        → World outside
        → Option String × World outside
    unfolding store_in_db store_in_qdrant
    store_memory id user_id content memory_type importance thread metadata w =
        if is_empty (strip content)
        then (none, w)
        else store_row
            (new_row id user_id (take 10_000 (strip content)) memory_type importance thread)
            metadata w

    abbrev pub note_id : Option String × World outside → List String → List String × World outside
    note_id (none, w) ids = (ids, w)
    note_id (some id, w) ids = (ids ++ (id ∷ []), w)

    -- The loop over the facts; an importance that is no number ends it. The ids are the next UUIDs.
    unfoldable pub store_facts :
        (user_id : String)
        → Option String
        → (uuids : List String) → List Fact
        → List String
        → World outside
        → List String × World outside
    unfolding store_memory
    store_facts user_id thread uuids [] ids w = (ids, w)
    store_facts user_id thread [] (f ∷ fs) ids w = (ids, w)
    store_facts user_id thread (u ∷ uuids) (f ∷ fs) ids w = elim f.importance [
      | unsaid ↦
          let (ids', w') =
            note_id (store_memory u user_id f.content f.fact_type 50 thread [] w) ids in
          store_facts user_id thread uuids fs ids' w'
      | hundredths n ↦
          let (ids', w') =
            note_id (store_memory u user_id f.content f.fact_type n thread [] w) ids in
          store_facts user_id thread uuids fs ids' w'
      | unreadable ↦ (ids, w)
    ]

    abbrev pub summarised :
        (id user_id : String)
        → Option String
        → (count : ℕ) → Text
        → World outside
        → List String × World outside
    summarised id user_id thread count [] w = ([], w)
    summarised id user_id thread count (c ∷ t) w =
        note_id
          (store_memory id user_id (take 10_000 (c ∷ t)) "factual" 40 thread
            (("subtype", text (codes "conversation_summary"))
              ∷ ("message_count", number count)
              ∷ [])
            w)
          []

    -- What `extract_memories_from_conversation` makes of the answer of the model, parsed as a list of
    -- facts, or of none where it fails; short conversations are not sent.
    abbrev pub extracted :
        (ask : Text → Option (List Fact)) → (upper : Text → Text) → List Message → List Fact
    extracted ask upper ms =
        let conversation = transcript 500 (λ m. upper m.role) (take_last 20 ms) in
        if ltb (length conversation) 50
        then []
        else elim (ask (take 3000 conversation)) [ none ↦ [] | some fs ↦ filter is_fact fs ]

    unfoldable pub store_conversation :
        (ask : Text → Option (List Fact))
        → (upper : Text → Text) → (is_on extract_facts : Bool) → (summary_id : String)
        → (uuids : List String) → (user_id : String) → List Message
        → Option String
        → World outside
        → List String × World outside
    unfolding store_facts
    store_conversation ask upper is_on extract_facts summary_id uuids user_id [] thread w = ([], w)
    store_conversation ask upper is_on extract_facts summary_id uuids user_id (m ∷ ms) thread w =
        let conversation = transcript 300 (λ m. m.role) (m ∷ ms) in
        let (ids, w1) = summarised summary_id user_id thread (length (m ∷ ms)) conversation w in
        let facts = if extract_facts then take 10 (extracted ask upper (m ∷ ms)) else [] in
        if is_on then store_facts user_id thread uuids facts ids w1 else ([], w)
