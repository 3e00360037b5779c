-- ===== src/Memory/Examples.antt =====
-- long_term_memory.py at concrete inputs: a vector database that keeps its points with their users.
use ai_chat_bot_v.Base.{
  ℕ, ◌*◌, ◌+◌, ◌≤◌, ◌≡◌, refl, true, false, none, some, List, [], ◌∷◌, String, filter, count,
  length, max, leb, if◌then◌else◌,
}
use ai_chat_bot_v.Base.Text.{Text, codes}
use ai_chat_bot_v.Base.Dict.{Dict}
use ai_chat_bot_v.Cache.{Datum}
use ai_chat_bot_v.Memory.{Outside, Row, World}
use ai_chat_bot_v.Memory.Prompt.{
  Remembered, header, format_memories_for_prompt, length-format_memories_for_prompt-le,
}
use ai_chat_bot_v.Memory.Recall.{recall_from_qdrant}
use ai_chat_bot_v.Memory.Upkeep.{is_of, is_live, is_removed, apply_decay, delete_user_data}
use ai_chat_bot_v.Memory.Erasure.{delete_user_data-Erases}
use ai_chat_bot_v.Memory.Decay.{apply_decay_counts}

abbrev Point : Type 0
Point = String × ℕ × Dict Datum

-- The points of the vector database belong to Ann.
abbrev outside : Outside
outside = record {
  Store = List Point;
  Vector = Text;
  Similarity = ℕ;
  DecayScore = ℕ;
  connects = λ s. true;
  upsert = λ id v payload s. (true, (id, 100, payload) ∷ s);
  search = λ v user types limit min_score s. some s;
  delete_of_user = λ user s. [];
  embed = λ t. some t;
  new_score = 100;
  decay_of = λ old days. if leb days old then 0 else 100;
  below_tenth = λ score. leb score 9;
}

abbrev memory : (id user_id : String) → (importance : ℕ) → Row outside
memory id user_id importance = record {
  id = id;
  user_id = user_id;
  content = codes "likes tea";
  memory_type = "factual";
  importance = importance;
  source_thread_id = none;
  decay_score = 100;
  access_count = 0;
  last_accessed = none;
  created_at = 0;
  is_deleted = false;
}

abbrev world : World outside
world = record {
  rows = memory "m1" "ann" 5 ∷ memory "m2" "bob" 5 ∷ memory "m3" "ann" 40 ∷ [];
  store = ("m1", 100, []) ∷ [];
  database_fails = false;
}

-- Ninety days and one, in microseconds.
abbrev later : ℕ
later = 91 * 86_400_000_000

one_removed : (apply_decay outside later 90 "ann" true world).0 ≡ 1
unfolding apply_decay
one_removed = refl

-- A failed commit removes nothing, and the report is the same.
none_removed_uncommitted : apply_decay outside later 90 "ann" false world ≡ (1, world)
unfolding apply_decay
none_removed_uncommitted = refl

abbrev tea : Remembered
tea = record { memory_type = codes "factual"; content = codes "likes tea" }

shown : length (format_memories_for_prompt (tea ∷ tea ∷ []) 60) ≡ 50
unfolding format_memories_for_prompt
shown = refl

length-format_memories_for_prompt-le_example :
    length (format_memories_for_prompt (tea ∷ tea ∷ []) 60)
    ≤ max (length header) 60 + length (tea ∷ tea ∷ [])
length-format_memories_for_prompt-le_example =
    length-format_memories_for_prompt-le (tea ∷ tea ∷ []) 60

delete_user_data-Erases_example :
    ((delete_user_data outside "ann" world).0 ≡ count (is_of outside "ann") world.rows)
    × (count (is_of outside "ann") (delete_user_data outside "ann" world).1.rows ≡ 0)
    × (recall_from_qdrant outside "ann"
          (codes "tea")
          5
          []
          50
          (delete_user_data outside "ann" world).1.store
        ≡ [])
    × (filter (is_of outside "bob") (delete_user_data outside "ann" world).1.rows
        ≡ filter (is_of outside "bob") world.rows)
delete_user_data-Erases_example =
    delete_user_data-Erases outside "ann" world refl refl
      (record { still_connects = refl; search_erased = λ v types limit min_score. refl }) "bob"
      (codes "tea") 5 [] 50 refl

apply_decay_counts_example :
    let after = apply_decay outside later 90 "ann" false world in
    (after.0
      ≡ (if world.database_fails then 0 else count (is_removed outside later 90 "ann") world.rows))
    × (count (is_live outside "ann") after.1.rows + (if false then after.0 else 0)
        ≡ count (is_live outside "ann") world.rows)
    × (filter (is_of outside "bob") after.1.rows ≡ filter (is_of outside "bob") world.rows)
apply_decay_counts_example = apply_decay_counts outside later 90 "ann" "bob" false world refl

abbrev important : World outside
important = record world { rows = memory "m1" "ann" 40 ∷ memory "m2" "bob" 10 ∷ [] }
