-- ===== src/Memory/Recall.antt =====
-- long_term_memory.py: recalling memories, and the counts of their accesses.
use ai_chat_bot_v.Base.{
  ℕ, ◌+◌, Bool, not, ◌&&◌, Option, none, some, List, [], String, map, any, str_eq, if◌then◌else◌,
}
use ai_chat_bot_v.Base.Text.{Text, codes, is_empty}
use ai_chat_bot_v.Base.Dict.{Dict, get_or}
use ai_chat_bot_v.Cache.{Datum, text, number}
use ai_chat_bot_v.Memory.{Outside, Row, World, RecalledMemory}

module _ (outside : Outside) where
  open outside use {Store, Similarity}

  abbrev pub shaped : String × Similarity × Dict Datum → RecalledMemory outside
  shaped (id, score, payload) = record {
    content = get_or "content" payload (text []);
    memory_type = get_or "memory_type" payload (text (codes "factual"));
    similarity_score = score;
    importance_score = get_or "importance_score" payload (number 50);
    created_at = get_or "created_at" payload (text []);
    memory_id = id;
  }

  abbrev pub shaped_all :
      Option (List (String × Similarity × Dict Datum)) → List (RecalledMemory outside)
  shaped_all none = []
  shaped_all (some hits) = map shaped hits

  abbrev pub search_for :
      Option outside.Vector
      → String
      → List String
      → ℕ
      → Similarity
      → Store
      → List (RecalledMemory outside)
  search_for none user_id types limit min_score store = []
  search_for (some v) user_id types limit min_score store =
      shaped_all (outside.search v user_id types limit min_score store)

  unfoldable pub recall_from_qdrant :
      (user_id : String)
      → (query : Text) → (limit : ℕ) → (memory_types : List String) → (min_score : Similarity)
      → Store
      → List (RecalledMemory outside)
  recall_from_qdrant user_id query limit types min_score store =
      if outside.connects store
      then search_for (outside.embed query) user_id types limit min_score store
      else []

  -- `record_access` of the rows of the user that were recalled.
  abbrev pub accessed : (now : ℕ) → (user_id : String) → List String → Row outside → Row outside
  accessed now user_id ids r =
      if any (str_eq r.id) ids && str_eq r.user_id user_id
      then record r { access_count = r.access_count + 1; last_accessed = some now }
      else r

  unfoldable pub update_access_counts :
      (now : ℕ) → (user_id : String) → List String → World outside → World outside
  update_access_counts now user_id ids w =
      if w.database_fails then w else record w { rows = map (accessed now user_id ids) w.rows }

  -- The counts are brought up to date by a task that does not hold the answer up.
  unfoldable pub recall_relevant :
      (now : ℕ)
      → (is_on : Bool) → (user_id : String) → (query : Text) → (limit : ℕ)
      → (memory_types : List String) → (min_score : Similarity) → World outside
      → List (RecalledMemory outside) × World outside
  unfolding recall_from_qdrant update_access_counts
  recall_relevant now is_on user_id query limit types min_score w =
      let memories = recall_from_qdrant user_id query limit types min_score w.store in
      if is_on && not (is_empty query)
      then (memories, update_access_counts now user_id (map (λ m. m.memory_id) memories) w)
      else ([], w)
