-- ===== src/Tasks/Upkeep.antt =====
-- background_tasks.py: the upkeep of memories, sessions, logs and counters, and the batches of
-- requests. Rows are kept with what the tasks read of them; a database that fails raises at the first
-- statement.
use ai_chat_bot_v.Base.{
  ℕ, zero, suc, ◌+◌, ◌*◌, ◌≡◌, refl, ap, ◌>>=◌, Bool, true, false, not, Option, none, some, List,
  [], ◌∷◌, String, map, filter, length, count, ltb, str_eq, if◌then◌else◌,
}
use ai_chat_bot_v.Base.Int.{ℤ, negsuc}
use ai_chat_bot_v.Base.Text.{Text, is_empty}
use ai_chat_bot_v.Memory.{Outside, World}
use ai_chat_bot_v.Memory.Upkeep.{apply_decay}
use ai_chat_bot_v.RedisClient.Server.{RedisServer, IsDown, redis_error}
use ai_chat_bot_v.RedisClient.{Returned, ret, raised, Client, scan, ttl, delete}
use ai_chat_bot_v.RedisClient.Outage.{guarded_down}

-- The answers of the tasks; the last is the text of an exception.
pub data Report (A : Type 0) : Type 0 where
  success : A → Report A
  skipped : Report A
  error : Report A

-- `commits` says of each user whether the commit of the decay goes through.
module _ (outside : Outside) (now decay_days : ℕ) (commits : String → Bool) where
  -- The users one after the other. The decay of a user whose database fails reports 0 by itself.
  unfoldable pub decay_all : List String → World outside → ℕ × World outside
  decay_all [] w = (0, w)
  decay_all (u ∷ users) w =
      let (n, w') = apply_decay outside now decay_days u (commits u) w in
      let (m, w'') = decay_all users w' in (n + m, w'')

  abbrev decay_users : (users : Option (List String)) → World outside → Report ℕ × World outside
  decay_users none w = (error, w)
  decay_users (some users) w = let (n, w') = decay_all users w in (success n, w')

  -- `users` are those that are active and not deleted, if the database can be asked; an empty
  -- `user_id` counts as none.
  unfoldable pub apply_memory_decay :
      (user_id : Option String)
      → (users : Option (List String)) → World outside
      → Report ℕ × World outside
  unfolding decay_all
  apply_memory_decay (some u) users w =
      if str_eq u ""
      then decay_users users w
      else let (n, w') = apply_decay outside now decay_days u (commits u) w in (success n, w')
  apply_memory_decay none users w = decay_users users w

module _ (redis : RedisServer) where
  -- `ttl == -1`
  abbrev is_orphan : ℤ → Bool
  is_orphan (negsuc zero) = true
  is_orphan n = false

  -- Whether a key was deleted counts 1, whatever the client answers.
  abbrev deleted_one : Returned ℕ × Client redis → Option ℕ × Client redis
  deleted_one (ret n, c) = (some 1, c)
  deleted_one (raised, c) = (none, c)

  abbrev delete_orphan : String → Returned ℤ × Client redis → Option ℕ × Client redis
  delete_orphan k (raised, c) = (none, c)
  delete_orphan k (ret n, c) =
      if is_orphan n then deleted_one (delete redis (k ∷ []) c) else (some 0, c)

  abbrev then_add :
      Option ℕ × Client redis → (Client redis → Option ℕ × Client redis) → Option ℕ × Client redis
  then_add (none, c) rest = (none, c)
  then_add (some n, c) rest = let (m, c') = rest c in (m >>= λ k. some (n + k), c')

  -- The keys of one page, those without a lifetime being deleted; `none` is an exception.
  unfoldable pub delete_orphans : List String → Client redis → Option ℕ × Client redis
  delete_orphans [] c = (some 0, c)
  delete_orphans (k ∷ ks) c = then_add (delete_orphan k (ttl redis k c)) (delete_orphans ks)

  -- What a page leads to, where `next` is the loop from its cursor on.
  abbrev after_page :
      (cursor scanned deleted : ℕ)
      → Option ℕ × Client redis
      → (ℕ → Client redis → Option (Report (ℕ × ℕ)) × Client redis)
      → Option (Report (ℕ × ℕ)) × Client redis
  after_page cursor scanned deleted (none, c) next = (some error, c)
  after_page zero scanned deleted (some n, c) next = (some (success (scanned, deleted + n)), c)
  after_page (suc cursor) scanned deleted (some n, c) next = next (deleted + n) c

  abbrev after_scan :
      (scanned deleted : ℕ)
      → Returned (ℕ × List String) × Client redis
      → (ℕ → ℕ → ℕ → Client redis → Option (Report (ℕ × ℕ)) × Client redis)
      → Option (Report (ℕ × ℕ)) × Client redis
  after_scan scanned deleted (raised, c) next = (some error, c)
  after_scan scanned deleted (ret (cursor, keys), c) next =
      after_page cursor (scanned + length keys) deleted (delete_orphans keys c)
        (next cursor (scanned + length keys))

  -- The pages from a cursor on; fuel bounds their number, and `none` is a loop that has not ended.
  unfoldable pub sweep :
      (fuel cursor scanned deleted : ℕ) → Client redis → Option (Report (ℕ × ℕ)) × Client redis
  unfolding delete_orphans
  sweep zero cursor scanned deleted c = (none, c)
  sweep (suc fuel) cursor scanned deleted c =
      after_scan scanned deleted (scan redis cursor "session:*" 100 c) (sweep fuel)

  -- How many keys were seen and how many deleted.
  unfoldable pub cleanup_expired_sessions :
      (fuel : ℕ) → (has_redis : Bool) → Client redis → Option (Report (ℕ × ℕ)) × Client redis
  unfolding sweep
  cleanup_expired_sessions fuel false c = (some skipped, c)
  cleanup_expired_sessions fuel true c = sweep fuel 0 0 0 c

  -- While Redis cannot be reached the cleanup ends at once and reports success, with nothing seen.
  pub cleanup_expired_sessions-down :
      (fuel : ℕ) (c : Client redis)
      → IsDown redis c.server
      → redis.scan 0 "session:*" 100 c.server ≡ (redis_error, c.server)
      → cleanup_expired_sessions (suc fuel) true c ≡ (some (success (0, 0)), c)
  unfolding cleanup_expired_sessions scan
  cleanup_expired_sessions-down fuel c d e =
      ap (λ r. after_scan 0 0 r (sweep fuel))
        (guarded_down redis (0, []) (redis.scan 0 "session:*" 100) c d e)

-- A row of a log, by the time at which it was written.
abbrev pub Log : Type 0
Log = List ℕ

abbrev pub day : ℕ
day = 24 * (60 * (60 * 1_000_000))

-- `DELETE FROM … WHERE created_at < :cutoff`: how many rows went.
unfoldable pub delete_older :
    (retention_days now : ℕ) → (database_fails : Bool) → Log → Report ℕ × Log
delete_older days now true log = (error, log)
delete_older days now false log = (
  success (count (λ at. ltb (at + days * day) now) log),
  filter (λ at. not (ltb (at + days * day) now)) log,
)

-- With 90 days where none are given.
abbrev pub cleanup_old_usage_logs :
    (retention_days now : ℕ) → (database_fails : Bool) → Log → Report ℕ × Log
cleanup_old_usage_logs = delete_older

-- With 365 days where none are given.
abbrev pub cleanup_old_audit_logs :
    (retention_days now : ℕ) → (database_fails : Bool) → Log → Report ℕ × Log
cleanup_old_audit_logs = delete_older

pub record Counter : Type 0 where
  pub monthly_tokens_used : ℕ
  pub monthly_reset_at : ℕ
  pub is_deleted : Bool

abbrev reset : (now : ℕ) → Counter → Counter
reset now c =
    if c.is_deleted then c else record c { monthly_tokens_used = 0; monthly_reset_at = now }

unfoldable pub reset_monthly_token_counters :
    (now : ℕ) → (database_fails : Bool) → List Counter → Report ℕ × List Counter
reset_monthly_token_counters now true users = (error, users)
reset_monthly_token_counters now false users =
    (success (count (λ c. not c.is_deleted) users), map (reset now) users)

-- A request of a batch, with its defaults put in, and a result with its index.
pub record BatchItem : Type 0 where
  pub prompt : Text
  pub user_id : String
  pub tier : String

pub data BatchResult (Response : Type 0) : Type 0 where
  answered : Response → BatchResult Response
  empty_prompt : BatchResult Response
  request_failed : BatchResult Response

module _ {Response World : Type 0}
    (route : (prompt : Text) → (user_id tier : String) → World → Option Response × World) where
  abbrev routed : Option Response × World → BatchResult Response × World
  routed (none, w) = (request_failed, w)
  routed (some r, w) = (answered r, w)

  abbrev process_item : BatchItem → World → BatchResult Response × World
  process_item item w =
      if is_empty item.prompt
      then (empty_prompt, w)
      else routed (route item.prompt item.user_id item.tier w)

  -- `route` gives `none` where it raises.
  unfoldable pub process_from :
      (idx : ℕ) → List BatchItem → World → List (ℕ × BatchResult Response) × World
  process_from idx [] w = ([], w)
  process_from idx (item ∷ items) w =
      let (r, w') = process_item item w in
      let (rs, w'') = process_from (suc idx) items w' in ((idx, r) ∷ rs, w'')

  unfoldable pub process_batch_requests :
      List BatchItem → World → List (ℕ × BatchResult Response) × World
  unfolding process_from
  process_batch_requests items w = process_from 0 items w

  abbrev pub indices : (idx : ℕ) → List BatchItem → List ℕ
  indices idx [] = []
  indices idx (item ∷ items) = idx ∷ indices (suc idx) items

  indices-process_from :
      (idx : ℕ) (items : List BatchItem) (w : World)
      → map (λ r. r.0) (process_from idx items w).0 ≡ indices idx items
  unfolding process_from
  indices-process_from idx [] w = refl
  indices-process_from idx (item ∷ items) w =
      ap (λ is. idx ∷ is) (indices-process_from (suc idx) items (process_item item w).1)

  -- Each request of a batch has a result, under its index and in its place, whether or not it failed.
  pub indices-process_batch_requests :
      (items : List BatchItem) (w : World)
      → map (λ r. r.0) (process_batch_requests items w).0 ≡ indices 0 items
  unfolding process_batch_requests
  indices-process_batch_requests items w = indices-process_from 0 items w
