-- ===== src/Memory.antt =====
-- long_term_memory.py and the table of memories of database.py: a memory stands as a row in the
-- database and as a point in the vector database. Importance is in hundredths, where the source has
-- floats.
pub mod Prompt
pub mod Service
pub mod Recall
pub mod Upkeep
pub mod Erasure
pub mod Decay
mod Examples
use ai_chat_bot_v.Base.{ℕ, Bool, Option, List, String}
use ai_chat_bot_v.Base.Text.{Text}
use ai_chat_bot_v.Base.Dict.{Dict}
use ai_chat_bot_v.Cache.{Datum}

-- What is outside: the vector database, whose calls raise (`none`, `false`) or answer, the embedding
-- model, and the arithmetic of the decay. `decay_of` is `max(0.0, 1.0 - days_old / (decay_days * 2))`,
-- and `below_tenth` the test `< 0.1`.
pub record Outside : Type 1 where
  pub Store : Type 0
  pub Vector : Type 0
  pub Similarity : Type 0
  pub DecayScore : Type 0
  pub connects : Store → Bool
  pub upsert : (id : String) → Vector → (payload : Dict Datum) → Store → Bool × Store
  pub search :
      Vector
      → (user_id : String) → (memory_types : List String) → (limit : ℕ) → (min_score : Similarity)
      → Store
      → Option (List (String × Similarity × Dict Datum))
  pub delete_of_user : (user_id : String) → Store → Store
  pub embed : Text → Option Vector
  pub new_score : DecayScore
  pub decay_of : (days_old decay_days : ℕ) → DecayScore
  pub below_tenth : DecayScore → Bool

-- A row of the table; times are readings of the clock.
pub record Row (outside : Outside) : Type 0 where
  pub id : String
  pub user_id : String
  pub content : Text
  pub memory_type : String
  pub importance : ℕ
  pub source_thread_id : Option String
  pub decay_score : outside.DecayScore
  pub access_count : ℕ
  pub last_accessed : Option ℕ
  pub created_at : ℕ
  pub is_deleted : Bool

-- `database_fails` says that a session of the database raises at its first statement. A commit that
-- fails at the end of one is modelled for the decay alone, whose report does not depend on it.
pub record World (outside : Outside) : Type 0 where
  pub rows : List (Row outside)
  pub store : outside.Store
  pub database_fails : Bool

pub record RecalledMemory (outside : Outside) : Type 0 where
  pub content : Datum
  pub memory_type : Datum
  pub similarity_score : outside.Similarity
  pub importance_score : Datum
  pub created_at : Datum
  pub memory_id : String
