-- ===== src/Memory/Erasure.antt =====
-- long_term_memory.py, `delete_user_data`: what is left of a user, and of others.
use ai_chat_bot_v.Base.{
  ℕ, ◌≡◌, refl, ap, ◌∙◌, true, false, not, Option, none, some, List, [], ◌∷◌, String, filter, count,
  str_eq, eq_iff, arith,
}
use ai_chat_bot_v.Base.Text.{Text}
use ai_chat_bot_v.Memory.{Outside, Row, World}
use ai_chat_bot_v.Memory.Recall.{recall_from_qdrant, search_for, shaped_all}
use ai_chat_bot_v.Memory.Upkeep.{is_of, delete_user_data}

-- The vector database after it has deleted the points of a user: it is still reached, and a search
-- among the points of that user finds none.
pub record Erases (outside : Outside) (user_id : String) (s : outside.Store) : Type 0 where
  pub still_connects : outside.connects (outside.delete_of_user user_id s) ≡ true
  pub search_erased :
      (v : outside.Vector) (types : List String) (limit : ℕ) (min_score : outside.Similarity)
      → outside.search v user_id types limit min_score (outside.delete_of_user user_id s) ≡ some []

module _ (outside : Outside) (user_id : String) where
  kept : List (Row outside) → List (Row outside)
  kept = filter (λ r. not (is_of outside user_id r))

  count-kept : (rows : List (Row outside)) → count (is_of outside user_id) (kept rows) ≡ 0
  unfolding kept
  count-kept [] = refl
  count-kept (r ∷ rows) = ground (arith, count-kept rows)

  others_kept :
      (other : String) (rows : List (Row outside))
      → str_eq user_id other ≡ false
      → filter (is_of outside other) (kept rows) ≡ filter (is_of outside other) rows
  unfolding kept
  others_kept other [] ne = refl
  others_kept other (r ∷ rows) ne = ground (
    arith,
    others_kept other rows ne,
    eq_iff r.user_id user_id,
    eq_iff r.user_id other,
    eq_iff user_id other,
  )

  recall_erased :
      (s : outside.Store) (e : Erases outside user_id s) (o : Option outside.Vector)
      (types : List String) (limit : ℕ) (min_score : outside.Similarity)
      → search_for outside o user_id types limit min_score (outside.delete_of_user user_id s) ≡ []
  recall_erased s e none types limit min_score = refl
  recall_erased s e (some v) types limit min_score =
      ap (shaped_all outside) (e.search_erased v types limit min_score)

  module _ (w : World outside) (works : w.database_fails ≡ false)
      (linked : outside.connects w.store ≡ true) (erases : Erases outside user_id w.store) where
    abbrev left : World outside
    left = (delete_user_data outside user_id w).1

    rows_left :
        (left.rows ≡ kept w.rows)
        × (left.store ≡ outside.delete_of_user user_id w.store)
        × ((delete_user_data outside user_id w).0 ≡ count (is_of outside user_id) w.rows)
    unfolding delete_user_data kept
    rows_left = ground (arith, works, linked)

    recall_left :
        (query : Text) (limit : ℕ) (types : List String) (min_score : outside.Similarity)
        → recall_from_qdrant outside user_id query limit types min_score
            (outside.delete_of_user user_id w.store)
          ≡ []
    unfolding recall_from_qdrant
    recall_left query limit types min_score =
        rw (erases.still_connects)
          (recall_erased w.store erases (outside.embed query) types limit min_score)

    -- Where the database and the vector database can be reached, deleting a user's data reports how many
    -- rows the user had; no row of the user is left and no query recalls anything for the user, while
    -- the rows of every other user stay as they were, in their order.
    pub delete_user_data-Erases :
        (other : String) (query : Text) (limit : ℕ) (types : List String)
        (min_score : outside.Similarity)
        → str_eq user_id other ≡ false
        → ((delete_user_data outside user_id w).0 ≡ count (is_of outside user_id) w.rows)
          × (count (is_of outside user_id) left.rows ≡ 0)
          × (recall_from_qdrant outside user_id query limit types min_score left.store ≡ [])
          × (filter (is_of outside other) left.rows ≡ filter (is_of outside other) w.rows)
    delete_user_data-Erases other query limit types min_score ne = (
      rows_left.2,
      ap (count (is_of outside user_id)) rows_left.0 ∙ count-kept w.rows,
      ap (recall_from_qdrant outside user_id query limit types min_score) rows_left.1
          ∙ recall_left query limit types min_score,
      ap (filter (is_of outside other)) rows_left.0 ∙ others_kept other w.rows ne,
    )
