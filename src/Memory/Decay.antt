-- ===== src/Memory/Decay.antt =====
-- long_term_memory.py, `_apply_decay_sync`: what is removed, and what never is.
use ai_chat_bot_v.Base.{
  ℕ, ◌+◌, ◌≤◌, ◌≡◌, refl, Bool, false, if◌then◌else◌, List, [], ◌∷◌, String, map, filter, count,
  All, str_eq, eq_iff, arith,
}
use ai_chat_bot_v.Memory.{Outside, Row, World}
use ai_chat_bot_v.Memory.Upkeep.{is_of, is_live, is_removed, decayed, apply_decay}

module _ (outside : Outside) (now decay_days : ℕ) (user_id : String) where
  live_split :
      (rows : List (Row outside))
      → count (is_live outside user_id) (map (decayed outside now decay_days user_id) rows)
          + count (is_removed outside now decay_days user_id) rows
        ≡ count (is_live outside user_id) rows
  live_split [] = omega arith
  live_split (r ∷ rows) = ground (arith, live_split rows)

  others_same :
      (other : String) (rows : List (Row outside))
      → str_eq user_id other ≡ false
      → filter (is_of outside other) (map (decayed outside now decay_days user_id) rows)
        ≡ filter (is_of outside other) rows
  others_same other [] ne = refl
  others_same other (r ∷ rows) ne = ground (
    arith,
    others_same other rows ne,
    eq_iff r.user_id user_id,
    eq_iff r.user_id other,
    eq_iff user_id other,
  )

  none_removed :
      (rows : List (Row outside))
      → All (λ (r : Row outside). 10 ≤ r.importance) rows
      → (count (is_removed outside now decay_days user_id) rows ≡ 0)
        × (map
              (λ (r : Row outside). r.is_deleted)
              (map (decayed outside now decay_days user_id) rows)
            ≡ map (λ (r : Row outside). r.is_deleted) rows)
  none_removed [] h = (refl, refl)
  none_removed (r ∷ rows) h = ground (arith, none_removed rows h.1, h.0)

  -- The decay of a user's memories reports how many of them it had to remove, none where the database
  -- cannot be reached. If the commit goes through, so many fewer of them are live afterwards; if it
  -- fails, as many are live as before, whatever is reported. The rows of every other user are as they
  -- were, in their order.
  pub apply_decay_counts :
      (other : String) (commits : Bool) (w : World outside)
      → str_eq user_id other ≡ false
      → ((apply_decay outside now decay_days user_id commits w).0 ≡ (
          if w.database_fails then 0 else count (is_removed outside now decay_days user_id) w.rows))
        × (count
                (is_live outside user_id)
                (apply_decay outside now decay_days user_id commits w).1.rows
              + (if commits then (apply_decay outside now decay_days user_id commits w).0 else 0)
            ≡ count (is_live outside user_id) w.rows)
        × (filter
              (is_of outside other)
              (apply_decay outside now decay_days user_id commits w).1.rows
            ≡ filter (is_of outside other) w.rows)
  unfolding apply_decay
  apply_decay_counts other commits w ne =
      ground (arith, live_split w.rows, others_same other w.rows ne)

  -- A memory of an importance of 0.1 or more, which is the least that a fact is extracted with, is never
  -- removed, however old it is: where all are such, none is removed.
  pub apply_decay_spares :
      (commits : Bool) (w : World outside)
      → All (λ (r : Row outside). 10 ≤ r.importance) w.rows
      → ((apply_decay outside now decay_days user_id commits w).0 ≡ 0)
        × (map
              (λ (r : Row outside). r.is_deleted)
              (apply_decay outside now decay_days user_id commits w).1.rows
            ≡ map (λ (r : Row outside). r.is_deleted) w.rows)
  unfolding apply_decay
  apply_decay_spares commits w h = ground (arith, none_removed w.rows h)
