-- ===== src/Reranker/Ranked/Best.antt =====
-- What the ranking returns: documents as they were given, and the best of them if the model ranks.
use mathlib.Core.List.{Perm}
use ai_chat_bot_v.Base.{
  ℕ, suc, ◌≤◌, ◌≡◌, Bool, true, false, not, filter, ◌⊎◌, Option, none, some, List, [], ◌∷◌, String,
  length, take, get_elem?, All,
}
use ai_chat_bot_v.Base.Dict.{Dict}
use ai_chat_bot_v.Base.Sort.{Ranking, Descending}
use ai_chat_bot_v.Reranker.{Encoder, Reranker}
use ai_chat_bot_v.Reranker.Ranked.{
  RankedDocument, Texts, RankedList, is_dropped, passed_through, scored,
}

module _ (encoder : Encoder) where
  open encoder use {Score, Model}

  -- A document of the texts, with its own index.
  abbrev pub Genuine : Texts → RankedDocument Score → Type 0
  Genuine texts d = get_elem? texts d.original_index ≡ some (d.content, d.metadata)

  -- A document that the threshold lets through.
  abbrev pub Passes : Option Score → RankedDocument Score → Type 0
  Passes threshold d = is_dropped encoder threshold d.normalized_score ≡ false

  abbrev row : (idx : ℕ) → String × Dict String → Score → Score → RankedDocument Score
  row idx t s n = record {
    content = t.0;
    score = s;
    original_index = idx;
    normalized_score = n;
    metadata = t.1;
  }

  -- Every text as a document, with its score, its normalized score and its index from `idx` on.
  pub rows : (idx : ℕ) → Texts → List Score → List Score → RankedList encoder
  rows idx (t ∷ ts) (s ∷ ss) (n ∷ ns) = row idx t s n ∷ rows (suc idx) ts ss ns
  rows idx [] ss ns = []
  rows idx (t ∷ ts) [] ns = []
  rows idx (t ∷ ts) (s ∷ ss) [] = []

  -- Without a threshold every document is let through, and with one those that do not lie below it.
  abbrev pub let_through : Option Score → RankedDocument Score → Bool
  let_through none d = true
  let_through (some threshold) d = not (encoder.below d.normalized_score threshold)

  -- The best documents for a model's scores: the first of all those that the threshold lets through,
  -- each text being a row with its two scores and its index, in descending order.
  pub record Best (batch_size : ℕ) (query : String) (threshold : Option Score) (texts : Texts)
      (top_k : ℕ) (docs : RankedList encoder) : Type 0 where
    pub model : Model
    pub scores : List Score
    pub normalized : List Score
    pub by_model : scored encoder batch_size model query texts ≡ some (scores, normalized)
    pub all_docs : RankedList encoder
    pub all_there : Perm all_docs (filter (let_through threshold) (rows 0 texts scores normalized))
    pub descending : Descending encoder.below (λ d. d.score) all_docs
    pub first_ones : docs ≡ take top_k all_docs
    pub passing : All (Passes threshold) docs

  -- The texts in their order, or the best ones.
  abbrev pub Outcome :
      (batch_size : ℕ) (query : String)
      → Option Score
      → Texts
      → (top_k : ℕ) → RankedList encoder × Bool
      → Type 0
  Outcome batch_size query threshold texts top_k r =
      (r.1 ≡ true × (r.0 ≡ take top_k (passed_through encoder 0 texts)))
      ⊎ (r.1 ≡ false × Best batch_size query threshold texts top_k r.0)

  module _ (ranking : Ranking encoder.below) (batch_size : ℕ) (query : String)
      (threshold : Option Score) (texts : Texts) (top_k : ℕ) where
    -- Genuine documents, as many as are asked for at most.
    abbrev Sane : RankedList encoder × Bool → Type 0
    Sane r =
        All (Genuine texts) r.0
        × ((length r.0 ≤ top_k) × Outcome batch_size query threshold texts top_k r)
