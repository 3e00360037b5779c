-- ===== src/Memory/Upkeep.antt =====
-- long_term_memory.py: the profile, the decay, the deletion of a user's memories and the counts.
use ai_chat_bot_v.Base.{
  ℕ, ◌-◌, ◌*◌, ◌/◌, Bool, not, ◌&&◌, Option, none, some, List, [], ◌∷◌, String, map, filter, take,
  length, count, ltb, str_eq, seconds, if◌then◌else◌,
}
use ai_chat_bot_v.Base.Sort.{sort_desc}
use ai_chat_bot_v.Memory.{Outside, Row, World}

module _ (outside : Outside) where
  abbrev pub is_of : (user_id : String) → Row outside → Bool
  is_of user_id r = str_eq r.user_id user_id

  abbrev pub is_live : (user_id : String) → Row outside → Bool
  is_live user_id r = is_of user_id r && not r.is_deleted

  pub record Profile : Type 0 where
    pub facts : List (Row outside)
    pub preferences : List (Row outside)
    pub procedures : List (Row outside)
    pub emotional : List (Row outside)
    pub total_memories : ℕ

  -- `.order_by(importance_score.desc()).limit(limit)`; equals stay in the order of the table.
  abbrev pub most_important :
      (user_id : String) → (limit : ℕ) → List (Row outside) → List (Row outside)
  most_important user_id limit rows =
      take limit (sort_desc ltb (λ r. r.importance) (filter (is_live user_id) rows))

  abbrev pub of_type : String → List (Row outside) → List (Row outside)
  of_type t = filter (λ r. str_eq r.memory_type t)

  abbrev pub profile_of : List (Row outside) → Profile
  profile_of rows = record {
    facts = of_type "factual" rows;
    preferences = of_type "preference" rows;
    procedures = of_type "procedural" rows;
    emotional = of_type "emotional" rows;
    total_memories = length rows;
  }

  -- Where the database fails the profile is empty.
  unfoldable pub get_user_profile : (user_id : String) → (limit : ℕ) → World outside → Profile
  unfolding sort_desc
  get_user_profile user_id limit w =
      if w.database_fails then profile_of [] else profile_of (most_important user_id limit w.rows)

  module _ (now decay_days : ℕ) where
    abbrev days : ℕ → ℕ
    days n = n * (24 * (60 * seconds 60))

    -- Rows of the user that are old, of an importance below 0.7 and not deleted.
    abbrev pub is_old : (user_id : String) → Row outside → Bool
    is_old user_id r =
        is_live user_id r && (ltb r.created_at (now - days decay_days) && ltb r.importance 70)

    abbrev pub days_old : Row outside → ℕ
    days_old r = (now - r.created_at) / days 1

    abbrev pub score_now : Row outside → outside.DecayScore
    score_now r = outside.decay_of (days_old r) decay_days

    -- A faded memory of an importance below 0.1 is deleted.
    abbrev pub is_removed : (user_id : String) → Row outside → Bool
    is_removed user_id r =
        is_old user_id r && (outside.below_tenth (score_now r) && ltb r.importance 10)

    abbrev pub decayed : (user_id : String) → Row outside → Row outside
    decayed user_id r =
        if is_old user_id r
        then record r { decay_score = score_now r; is_deleted = is_removed user_id r }
        else r

    -- `commits` says whether the commit at the end of the session goes through: if not, the rows are
    -- rolled back, and what was counted is reported nevertheless.
    unfoldable pub apply_decay :
        (user_id : String) → (commits : Bool) → World outside → ℕ × World outside
    apply_decay user_id commits w = if w.database_fails then (0, w) else (
      count (is_removed user_id) w.rows,
      if commits then record w { rows = map (decayed user_id) w.rows } else w,
    )

  abbrev pub delete_points : (user_id : String) → outside.Store → outside.Store
  delete_points user_id store =
      if outside.connects store then outside.delete_of_user user_id store else store

  abbrev pub delete_rows : (user_id : String) → World outside → ℕ × World outside
  delete_rows user_id w = if w.database_fails then (0, w) else (
    count (is_of user_id) w.rows,
    record w { rows = filter (λ r. not (is_of user_id r)) w.rows },
  )

  unfoldable pub delete_user_data : (user_id : String) → World outside → ℕ × World outside
  delete_user_data user_id w =
      let (n, w') = delete_rows user_id w in
      (n, record w' { store = delete_points user_id w'.store })

  pub record Stats : Type 0 where
    pub total : ℕ
    pub by_type : List (String × ℕ)

  abbrev stats_of : (user_id : String) → List String → List (Row outside) → List (String × ℕ)
  stats_of user_id [] rows = []
  stats_of user_id (t ∷ ts) rows =
      (t, count (λ r. is_live user_id r && str_eq r.memory_type t) rows) ∷ stats_of user_id ts rows

  -- `none` where the database fails; the limit and the share of it that is used are left out.
  unfoldable pub get_memory_stats : (user_id : String) → World outside → Option Stats
  get_memory_stats user_id w =
      if w.database_fails
      then none
      else some (record {
        total = count (is_live user_id) w.rows;
        by_type =
            stats_of user_id ("factual" ∷ "preference" ∷ "procedural" ∷ "emotional" ∷ []) w.rows;
      })
