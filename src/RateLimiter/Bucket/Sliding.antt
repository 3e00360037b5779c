-- ===== src/RateLimiter/Bucket/Sliding.antt =====
-- The script against an ideal sliding window, which remembers the times of all admitted requests.
pub mod Refinement
use ai_chat_bot_v.Base.{
  ℕ, ◌+◌, ◌*◌, ◌-◌, ◌≤◌, ◌<◌, ◌≡◌, refl, sym, ap, ◌∙◌, Bool, true, false, ◌&&◌, Option, none, some,
  List, [], ◌∷◌, String, str_eq, ltb, leb, length, filter, All, arith, seconds, if◌then◌else◌, bit,
  count, length-filter, count_mono, count-filter, count-filter-le, Bool-cases, inl, inr,
}
use ai_chat_bot_v.RateLimiter.Bucket.{Check, check_of, sliding_window_script, forget_old, admit}
use ai_chat_bot_v.RedisClient.Server.{RedisServer}

abbrev pub Member : Type 0
Member = ℕ × String

abbrev pub named : String → Member → Bool
named id m = str_eq m.1 id

-- What Redis documents of its sorted sets: a view of the members of a key, and what the commands of
-- the script do to it. `ZADD` adds a member only if there is none of its name.
pub record SortedSets (redis : RedisServer) : Type 0 where
  pub members : String → redis.Db → List Member
  pub zremrangebyscore_lem :
      (k : String) (u : ℕ) (d : redis.Db)
      → members k (redis.zremrangebyscore k u d) ≡ filter (λ m. ltb u m.0) (members k d)
  pub zcard_lem : (k : String) (d : redis.Db) → redis.zcard k d ≡ length (members k d)
  pub expire_lem :
      (k : String) (n : ℕ) (d : redis.Db) → members k (redis.expire k n d) ≡ members k d
  pub zadd_lem :
      (k : String) (s : ℕ) (id : String) (d : redis.Db) (p : Member → Bool)
      → count (named id) (members k d) ≡ 0
      → count p (members k (redis.zadd k s id d)) ≡ bit (p (s, id)) + count p (members k d)

-- A request for the bucket: its time and its identity.
abbrev pub Arrival : Type 0
Arrival = ℕ × String

-- Each arrives no earlier than the one before it.
abbrev pub Ordered : ℕ → List Arrival → Type 0
Ordered last [] = Unit
Ordered last ((t, id) ∷ rs) = (last ≤ t) × Ordered t rs

abbrev pub Distinct : List Arrival → Type 0
Distinct [] = Unit
Distinct ((t, id) ∷ rs) = All (λ r. str_eq id r.1 ≡ false) rs × Distinct rs

-- An admission at `t` still counts at `now`.
abbrev pub recent : (window now : ℕ) → ℕ → Bool
recent window now t = ltb now (t + seconds window)

-- The ideal window: a request is admitted if fewer than `limit` admissions are recent. The times of
-- the admissions, the last first.
unfoldable pub ideal : (window limit : ℕ) → List Arrival → List ℕ → List ℕ
ideal window limit [] log = log
ideal window limit ((t, id) ∷ rs) log =
    ideal window limit rs (if ltb (count (recent window t) log) limit then t ∷ log else log)

module _ (redis : RedisServer) (key : String) (window limit : ℕ) where
  -- The code's decision on one request, from the reply of the script.
  abbrev pub allows : Arrival → redis.Db → Bool
  allows (t, id) d =
      let (count, oldest) = (sliding_window_script redis key t window limit id d).0 in
      (check_of t limit window count oldest).is_allowed

  -- The times that the code admits.
  unfoldable pub admitted : List Arrival → redis.Db → List ℕ → List ℕ
  admitted [] d log = log
  admitted ((t, id) ∷ rs) d log =
      admitted rs (sliding_window_script redis key t window limit id d).1
        (if allows (t, id) d then t ∷ log else log)

now_bound :
    (window u t : ℕ) (log : List ℕ)
    → t ≤ u
    → count (λ t'. leb t' u && recent window u t') log ≤ count (recent window t) log
now_bound window u t log h =
    count_mono (λ t'. leb t' u && recent window u t') (recent window t) log
      (λ x e. ground (arith, e, h))

step_bound :
    (window limit u t : ℕ) (log : List ℕ)
    → count (λ t'. leb t' u && recent window u t') log ≤ limit
    → count
        (λ t'. leb t' u && recent window u t')
        (if ltb (count (recent window t) log) limit then t ∷ log else log)
      ≤ limit
step_bound window limit u t log h = elim (Bool-cases (ltb (count (recent window t) log) limit)) [
  | inr full ↦ rw full h
  | inl free ↦ rw free (elim (Bool-cases (leb t u)) [
    | inl past ↦ ground (arith, past, free, h, now_bound window u t log)
    | inr later ↦ ground (arith, later, h)
  ])
]

-- At no moment are more than `limit` admissions in the window that ends there.
pub ideal_bound :
    (window limit u : ℕ) (rs : List Arrival) (log : List ℕ)
    → count (λ t. leb t u && recent window u t) log ≤ limit
    → count (λ t. leb t u && recent window u t) (ideal window limit rs log) ≤ limit
unfolding ideal
ideal_bound window limit u [] log h = h
ideal_bound window limit u ((t, id) ∷ rs) log h =
    ideal_bound window limit u rs (if ltb (count (recent window t) log) limit then t ∷ log else log)
      (step_bound window limit u t log h)
