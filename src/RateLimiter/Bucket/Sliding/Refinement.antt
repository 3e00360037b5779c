-- ===== src/RateLimiter/Bucket/Sliding/Refinement.antt =====
-- The sorted set of a bucket against the ideal window: the script admits the same requests.
use ai_chat_bot_v.Base.{
  ℕ, ◌+◌, ◌-◌, ◌≤◌, ◌≡◌, refl, ap, ◌∙◌, Bool, true, false, ◌&&◌, List, [], ◌∷◌, String, str_eq, ltb,
  leb, All, arith, seconds, if◌then◌else◌, bit, count, length-filter, length-count, count_ext,
  count-filter, count-filter-le, Bool-cases, inl, inr,
}
use ai_chat_bot_v.RateLimiter.Bucket.{sliding_window_script, check_of, forget_old, admit}
use ai_chat_bot_v.RateLimiter.Bucket.Sliding.{
  Member, named, SortedSets, Arrival, Ordered, Distinct, recent, ideal, ideal_bound, allows,
  admitted,
}
use ai_chat_bot_v.RedisClient.Server.{RedisServer}

module _ (redis : RedisServer) (laws : SortedSets redis) (key : String) (window limit : ℕ) where
  open laws use {members}

  -- The set holds what the ideal window remembers, as far as it still counts.
  abbrev Agrees : ℕ → redis.Db → List ℕ → Type 0
  Agrees now d log =
      (u : ℕ)
      → now ≤ u
      → count (λ m. recent window u m.0) (members key d) ≡ count (recent window u) log

  abbrev Free : redis.Db → List Arrival → Type 0
  Free d = All (λ r. count (named r.1) (members key d) ≡ 0)

  -- What the script keeps still has all that counts.
  kept_count :
      (t : ℕ) (d : redis.Db) (p : Member → Bool)
      → ((m : Member) → p m ≡ true → recent window t m.0 ≡ true)
      → count p (members key (forget_old redis key t window d)) ≡ count p (members key d)
  kept_count t d p h = elim (Bool-cases (leb (seconds window) t)) [
    | inr early ↦ rw early
    | inl late ↦
        rw (late, laws.zremrangebyscore_lem key (t - seconds window) d)
          (count-filter p (λ m. ltb (t - seconds window) m.0) (members key d)
            (λ m e. ground (arith, h m e, late)))
  ]

  kept_le :
      (t : ℕ) (d : redis.Db) (p : Member → Bool)
      → count p (members key (forget_old redis key t window d)) ≤ count p (members key d)
  kept_le t d p = elim (Bool-cases (leb (seconds window) t)) [
    | inr early ↦ rw early (omega arith)
    | inl late ↦
        rw (late, laws.zremrangebyscore_lem key (t - seconds window) d)
          (count-filter-le p (λ m. ltb (t - seconds window) m.0) (members key d))
  ]

  -- The script counts the recent members.
  kept_card :
      (t : ℕ) (d : redis.Db)
      → redis.zcard key (forget_old redis key t window d)
        ≡ count (λ m. recent window t m.0) (members key d)
  kept_card t d = elim (Bool-cases (leb (seconds window) t)) [
    | inr early ↦
        rw (early, laws.zcard_lem key d)
          (length-count (λ m. recent window t m.0) (members key d) (λ m. ground (arith, early)))
    | inl late ↦
        rw
          (
            late,
            laws.zcard_lem key (redis.zremrangebyscore key (t - seconds window) d),
            laws.zremrangebyscore_lem key (t - seconds window) d,
            length-filter (λ m. ltb (t - seconds window) m.0) (members key d),
          )
          (count_ext (λ m. ltb (t - seconds window) m.0) (λ m. recent window t m.0) (members key d)
            (λ m. ground (arith, late)))
  ]

  abbrev kept : ℕ → redis.Db → redis.Db
  kept t d = forget_old redis key t window d

  -- The set after the script.
  after : Arrival → redis.Db → redis.Db
  after (t, id) d = (sliding_window_script redis key t window limit id d).1

  module _ (t : ℕ) (id : String) (d : redis.Db) (new : count (named id) (members key d) ≡ 0) where
    count-admit :
        (p : Member → Bool)
        → count p (members key (admit redis key t window id (kept t d)))
          ≡ bit (p (t, id)) + count p (members key (kept t d))
    count-admit p =
        rw (laws.expire_lem key (window + 1) (redis.zadd key t id (kept t d)))
          (laws.zadd_lem key t id (kept t d) p (omega (arith, new, kept_le t d (named id))))

    step-Agrees :
        (last : ℕ) (log : List ℕ)
        → last ≤ t
        → Agrees last d log
        → Agrees t
            (after (t, id) d)
            (if allows redis key window limit (t, id) d then t ∷ log else log)
    unfolding after sliding_window_script check_of
    step-Agrees last log order agrees u later =
        let same : count (λ m. recent window u m.0) (members key (kept t d))
            ≡ count (recent window u) log =
          kept_count t d (λ m. recent window u m.0) (λ m e. ground (arith, e, later))
          ∙ agrees u (omega (arith, order, later)) in
        elim (Bool-cases (ltb (redis.zcard key (kept t d)) limit)) [
          | inl free ↦ rw (free, count-admit (λ m. recent window u m.0), same)
          | inr full ↦ rw (full, same)
        ]

    step-Free :
        (rs : List Arrival)
        → All (λ r. str_eq id r.1 ≡ false) rs
        → Free d rs
        → Free (after (t, id) d) rs
    unfolding after sliding_window_script
    step-Free [] others free = tt
    step-Free ((s, j) ∷ rs) others free = (
      elim (Bool-cases (ltb (redis.zcard key (kept t d)) limit)) [
        | inl room ↦
            rw (room, count-admit (named j))
              (ground (arith, others.0, free.0, kept_le t d (named j)))
        | inr full ↦ rw full (omega (arith, free.0, kept_le t d (named j)))
      ],
      step-Free rs others.1 free.1,
    )

    allows_same :
        (last : ℕ) (log : List ℕ)
        → last ≤ t
        → Agrees last d log
        → allows redis key window limit (t, id) d ≡ ltb (count (recent window t) log) limit
    unfolding sliding_window_script check_of
    allows_same last log order agrees = rw (kept_card t d, agrees t order)

  admitted-ideal' :
      (rs : List Arrival) (d : redis.Db) (log : List ℕ) (last : ℕ)
      → Agrees last d log
      → Ordered last rs
      → Distinct rs
      → Free d rs
      → admitted redis key window limit rs d log ≡ ideal window limit rs log
  unfolding admitted ideal after
  admitted-ideal' [] d log last agrees order distinct free = refl
  admitted-ideal' ((t, id) ∷ rs) d log last agrees order distinct free =
      admitted-ideal' rs (after (t, id) d)
        (if allows redis key window limit (t, id) d then t ∷ log else log) t
        (step-Agrees t id d free.0 last log order.0 agrees) order.1 distinct.1
        (step-Free t id d free.0 rs distinct.0 free.1)
      ∙ ap (λ b. ideal window limit rs (if b then t ∷ log else log))
          (allows_same t id d free.0 last log order.0 agrees)

  empty-Free : (d : redis.Db) (rs : List Arrival) → members key d ≡ [] → Free d rs
  empty-Free d [] e = tt
  empty-Free d ((t, id) ∷ rs) e = (rw e, empty-Free d rs e)

  -- From an empty set on, requests with identities of their own that arrive in order are admitted
  -- exactly as the ideal window admits them.
  pub admitted-ideal :
      (rs : List Arrival) (d : redis.Db)
      → members key d ≡ []
      → Ordered 0 rs
      → Distinct rs
      → admitted redis key window limit rs d [] ≡ ideal window limit rs []
  admitted-ideal rs d e order distinct =
      admitted-ideal' rs d [] 0 (λ u h. rw e) order distinct (empty-Free d rs e)

  -- From an empty set on, of requests with identities of their own that arrive in order never more
  -- than `limit` are admitted within one window, wherever it ends.
  pub admitted_bound :
      (rs : List Arrival) (d : redis.Db) (u : ℕ)
      → members key d ≡ []
      → Ordered 0 rs
      → Distinct rs
      → count (λ t. leb t u && recent window u t) (admitted redis key window limit rs d []) ≤ limit
  admitted_bound rs d u e order distinct =
      rw (admitted-ideal rs d e order distinct) (ideal_bound window limit u rs [] (omega arith))
