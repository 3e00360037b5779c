-- ===== src/Tasks/Rag.antt =====
-- background_tasks.py, `rebuild_rag_index`: the collection of a user, under a lock.
use Prim.Native.String.{◌++◌}
use ai_chat_bot_v.Base.{
  ◌≡◌, ap, Bool, true, false, List, String, Option, none, some, any, str_eq, if◌then◌else◌,
}
use ai_chat_bot_v.RedisClient.Server.{RedisServer, IsDown}
use ai_chat_bot_v.RedisClient.{Client}
use ai_chat_bot_v.Lock.{Lock, new_lock, acquire, release, acquire_unreached}
use ai_chat_bot_v.Tasks.{Retried, again, exceeded, reraised}

-- The vector database; `none` is an exception.
pub record Collections : Type 1 where
  pub Store : Type 0
  pub is_installed : Bool
  pub get_collections : Store → Option (List String)
  pub create_collection : String → Store → Option Store

pub data Rebuild : Type 0 where
  rebuilt : (collection : String) → Rebuild
  already_running : Rebuild
  not_installed : Rebuild
  rebuild_error : Rebuild
  -- the task is to run again, or the exception leaves it
  retried : Rebuild
  raised : Rebuild

abbrev retried_as : Retried → Rebuild
retried_as again = retried
retried_as exceeded = rebuild_error
retried_as reraised = raised

module _ (redis : RedisServer) (qdrant : Collections) (retry : Retried) where
  open qdrant use {Store}

  abbrev created : (collection : String) → Option Store → Store → Rebuild × Store
  created collection none store = (retried_as retry, store)
  created collection (some store') store = (rebuilt collection, store')

  abbrev among : (collection : String) → Option (List String) → Store → Rebuild × Store
  among collection none store = (retried_as retry, store)
  among collection (some names) store =
      if any (str_eq collection) names
      then (rebuilt collection, store)
      else created collection (qdrant.create_collection collection store) store

  -- What the `try` block and its handlers come to.
  unfoldable pub build_collection : (user_id : String) → Store → Rebuild × Store
  build_collection user_id store =
      if qdrant.is_installed
      then among ("rag_" ++ user_id) (qdrant.get_collections store) store
      else (not_installed, store)

  -- With the lock, the rebuild and its release.
  abbrev under_lock :
      (user_id : String) → (Bool × Lock) × Client redis → Store → (Rebuild × Store) × Client redis
  under_lock user_id ((false, k), c) store = ((already_running, store), c)
  under_lock user_id ((true, k), c) store = (build_collection user_id store, release redis k c)

  unfoldable pub rebuild_rag_index :
      (has_redis : Bool)
      → (user_id : String) → Client redis
      → Store
      → (Rebuild × Store) × Client redis
  unfolding build_collection new_lock acquire release
  rebuild_rag_index has_redis user_id c store =
      under_lock user_id (acquire redis (new_lock ("rag_rebuild:" ++ user_id) 300 has_redis) c)
        store

  -- While Redis cannot be reached, no index is rebuilt: the task is taken for one that is running.
  pub rebuild_rag_index-unreached :
      (user_id : String) (c : Client redis) (store : Store)
      → IsDown redis c.server
      → rebuild_rag_index true user_id c store ≡ ((already_running, store), c)
  unfolding rebuild_rag_index
  rebuild_rag_index-unreached user_id c store d =
      ap (λ r. under_lock user_id r store)
        (acquire_unreached redis ("rag_rebuild:" ++ user_id) 300 c d).0
