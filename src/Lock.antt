-- ===== src/Lock.antt =====
-- background_tasks.py, `RedisLock`: the lock that keeps a task from running twice at a time. The
-- clients of the workers share one server, and one client stands for them all.
mod Examples
use Prim.Native.String.{◌++◌}
use mathlib.Core.Path.{subst}
use ai_chat_bot_v.Base.{
  sym, ℕ, ◌≡◌, refl, ap, Bool, true, false, ◌&&◌, Option, some, List, [], ◌∷◌, String,
}
use ai_chat_bot_v.Base.Int.{pos}
use ai_chat_bot_v.RedisClient.Outage.{set_down}
use ai_chat_bot_v.RedisClient.Server.{Reply, reply, number, Value, RedisServer, IsDown}
use ai_chat_bot_v.RedisClient.{
  Returned, ret, raised, Client, set, delete, guarded, ensure_connected, settle,
}

-- `has_redis` is whether `_redis` is set.
pub record Lock : Type 0 where
  pub key : String
  pub timeout : ℕ
  pub has_redis : Bool
  pub acquired : Bool

-- `RedisLock.__init__`; `_get_redis` gives the client wherever redis_client.py can be imported.
unfoldable pub new_lock : (name : String) → (timeout : ℕ) → (has_redis : Bool) → Lock
new_lock name timeout has_redis = record {
  key = "lock:" ++ name;
  timeout = timeout;
  has_redis = has_redis;
  acquired = false;
}

module _ (redis : RedisServer) where
  -- What `acquire` makes of the answer of `set`, and the lock after it.
  abbrev pub settle_lock : Lock → Returned Bool → Bool × Lock
  settle_lock k (ret b) = (b, record k { acquired = b })
  settle_lock k raised = (true, k)

  unfoldable pub acquire : Lock → Client redis → (Bool × Lock) × Client redis
  acquire k c = elim k.has_redis [
    | false ↦ ((true, k), c)
    | true ↦
        let (r, c') = set redis k.key (number (pos 1)) (some k.timeout) true c in
        (settle_lock k r, c')
  ]

  unfoldable pub release : Lock → Client redis → Client redis
  release k c = elim (k.acquired && k.has_redis) [
    | false ↦ c
    | true ↦ let (n, c') = delete redis (k.key ∷ []) c in c'
  ]

-- While Redis cannot be reached, a lock that has a client is not acquired, so that the task it guards
-- is skipped; its release sends nothing.
pub acquire_unreached :
    (redis : RedisServer) (name : String) (timeout : ℕ) (c : Client redis)
    → IsDown redis c.server
    → (acquire redis (new_lock name timeout true) c ≡ ((false, new_lock name timeout true), c))
      × (release redis (acquire redis (new_lock name timeout true) c).0.1 c ≡ c)
unfolding new_lock acquire release
acquire_unreached redis name timeout c d =
    let e : acquire redis (new_lock name timeout true) c
        ≡ ((false, new_lock name timeout true), c) =
      rw (set_down redis c d ("lock:" ++ name) (number (pos 1)) (some timeout) true) in
    (e, subst (λ x. release redis x.0.1 c ≡ c) (sym e) refl)

module _ (redis : RedisServer) (c : Client redis) where
  acquire_set :
      (k : Lock) (b : Bool)
      → k.has_redis ≡ true
      → c.connected ≡ true
      → (redis.set k.key (number (pos 1)) (some k.timeout) true c.server).0 ≡ reply b
      → acquire redis k c ≡ (
        (b, record k { acquired = b }),
        record {
          connected = true;
          server = (redis.set k.key (number (pos 1)) (some k.timeout) true c.server).1;
        },
      )
  unfolding acquire set
  acquire_set k b has linked e =
      simp (acquire, has, set, guarded, ensure_connected, linked, settle, e)

-- On a connected client, a worker that has acquired a lock keeps another on the same key from
-- acquiring it, and the release of the other leaves everything as it is; where a `SET NX` that has
-- succeeded makes the next one on its key fail.
pub acquire_excludes :
    (redis : RedisServer) (mine theirs : Lock) (c : Client redis)
    → ((k : String) (v : Value) (ttl ttl' : ℕ) (s : redis.Server)
        → (redis.set k v (some ttl) true s).0 ≡ reply true
        → (redis.set k v (some ttl') true (redis.set k v (some ttl) true s).1).0 ≡ reply false)
    → c.connected ≡ true
    → mine.has_redis ≡ true
    → theirs.has_redis ≡ true
    → theirs.key ≡ mine.key
    → (redis.set mine.key (number (pos 1)) (some mine.timeout) true c.server).0 ≡ reply true
    → ((acquire redis mine c).0.0 ≡ true)
      × ((acquire redis theirs (acquire redis mine c).1).0.0 ≡ false)
      × (release redis
            (acquire redis theirs (acquire redis mine c).1).0.1
            (acquire redis theirs (acquire redis mine c).1).1
          ≡ (acquire redis theirs (acquire redis mine c).1).1)
unfolding release
acquire_excludes redis mine theirs c exclusive linked here there same free =
    let first = acquire_set redis c mine true here linked free in
    let held : Client redis = record {
      connected = true;
      server = (redis.set mine.key (number (pos 1)) (some mine.timeout) true c.server).1;
    } in
    let second = acquire_set redis held theirs false there refl (
      subst
        (λ k. (redis.set k (number (pos 1)) (some theirs.timeout) true held.server).0 ≡ reply false)
        (sym same)
        (exclusive mine.key (number (pos 1)) mine.timeout theirs.timeout c.server free)) in
    let after = (redis.set theirs.key (number (pos 1)) (some theirs.timeout) true held.server).1 in
    let refused : acquire redis theirs (acquire redis mine c).1 ≡ (
      (false, record theirs { acquired = false }),
      record { connected = true; server = after },
    ) =
      subst
        (λ x. acquire redis theirs x.1 ≡ (
          (false, record theirs { acquired = false }),
          record { connected = true; server = after },
        ))
        (sym first) second in
    (
      ap (λ x. x.0.0) first,
      ap (λ x. x.0.0) refused,
      subst (λ x. release redis x.0.1 x.1 ≡ x.1) (sym refused) refl,
    )
