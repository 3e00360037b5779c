-- ===== src/Reranker/Ranked.antt =====
-- ai/reranker.py, `rerank_detailed` and what it calls: the ranking by the model, and the ranking
-- without it.
pub mod Best
pub mod Batches
use ai_chat_bot_v.Base.{
  ℕ, zero, suc, ◌>>=◌, ◌==◌, min, Bool, true, false, Option, none, some, List, [], ◌∷◌, ◌++◌, map,
  String, length, take, drop, if◌then◌else◌,
}
use ai_chat_bot_v.Base.Dict.{Dict}
use ai_chat_bot_v.Base.Sort.{sort_desc}
use ai_chat_bot_v.Reranker.{Encoder, Document, Reranker, normalize_documents, load_model}

pub record RankedDocument (Score : Type 0) : Type 0 where
  pub content : String
  pub score : Score
  pub original_index : ℕ
  pub normalized_score : Score
  pub metadata : Dict String

pub record RerankResult (Score : Type 0) : Type 0 where
  pub documents : List (RankedDocument Score)
  pub model_used : String
  pub total_candidates : ℕ
  pub returned_count : ℕ
  pub fallback_used : Bool

-- Texts with their metadata.
abbrev pub Texts : Type 0
Texts = List (String × Dict String)

module _ (encoder : Encoder) where
  open encoder use {Score, Model}

  abbrev pub RankedList : Type 0
  RankedList = List (RankedDocument Score)

  -- The batches: what a batch takes is scored, and then the pairs that are left. A batch size of 0
  -- makes `range` raise. As much fuel as there are pairs is enough.
  unfoldable pub score_batches :
      (fuel batch_size : ℕ) → Model → List (String × String) → Option (List Score)
  score_batches zero batch_size m pairs = some []
  score_batches (suc fuel) batch_size m [] = some []
  score_batches (suc fuel) batch_size m (p ∷ ps) =
      let rest = score_batches fuel batch_size m (drop batch_size (p ∷ ps)) in
      do scores ← encoder.predict m (take batch_size (p ∷ ps)); more ← rest; some (scores ++ more)

  unfoldable pub all_scores :
      (batch_size : ℕ) → Model → (query : String) → Texts → Option (List Score)
  unfolding score_batches
  all_scores batch_size m query texts =
      let scores = score_batches (length texts) batch_size m (map (λ t. (query, t.0)) texts) in
      if batch_size == 0 then none else scores

  unfoldable pub normalize_scores : List Score → Option (List Score)
  normalize_scores [] = some []
  normalize_scores (s ∷ ss) =
      let rest = normalize_scores ss in do n ← encoder.sigmoid s; ns ← rest; some (n ∷ ns)

  -- `score_threshold is not None and norm_score < score_threshold`
  abbrev pub is_dropped : (score_threshold : Option Score) → (norm_score : Score) → Bool
  is_dropped none norm_score = false
  is_dropped (some threshold) norm_score = encoder.below norm_score threshold

  -- The loop over the texts, their scores and their normalized scores, from an index on.
  unfoldable pub candidates :
      (score_threshold : Option Score) (idx : ℕ) → Texts → List Score → List Score → RankedList
  candidates threshold idx (t ∷ ts) (s ∷ ss) (n ∷ ns) =
      let rest = candidates threshold (suc idx) ts ss ns in
      if is_dropped threshold n
      then rest
      else record {
        content = t.0;
        score = s;
        original_index = idx;
        normalized_score = n;
        metadata = t.1;
      }
        ∷ rest
  candidates threshold idx [] ss ns = []
  candidates threshold idx (t ∷ ts) [] ns = []
  candidates threshold idx (t ∷ ts) (s ∷ ss) [] = []

  abbrev score_of : RankedDocument Score → Score
  score_of d = d.score

  -- The texts in their order, from an index on.
  unfoldable pub passed_through : (idx : ℕ) → Texts → RankedList
  passed_through idx [] = []
  passed_through idx (t ∷ ts) =
      record {
        content = t.0;
        score = encoder.passthrough idx;
        original_index = idx;
        normalized_score = encoder.passthrough idx;
        metadata = t.1;
      }
      ∷ passed_through (suc idx) ts

  -- No use is made of the threshold.
  unfoldable pub fallback_rank :
      Texts → (top_k : ℕ) → (score_threshold : Option Score) → RankedList × Bool
  unfolding passed_through
  fallback_rank texts top_k threshold = (take top_k (passed_through 0 texts), true)

  -- The scores and the normalized scores, if nothing raises.
  unfoldable pub scored :
      (batch_size : ℕ) → Model → (query : String) → Texts → Option (List Score × List Score)
  unfolding all_scores normalize_scores
  scored batch_size m query texts = do
    scores ← all_scores batch_size m query texts
    normalized ← normalize_scores scores
    some (scores, normalized)

  abbrev pub rank_scored :
      Option (List Score × List Score)
      → Texts
      → (top_k : ℕ) → (score_threshold : Option Score) → RankedList × Bool
  rank_scored none texts top_k threshold = fallback_rank texts top_k threshold
  rank_scored (some (scores, normalized)) texts top_k threshold = (
    take top_k (sort_desc encoder.below score_of (candidates threshold 0 texts scores normalized)),
    false,
  )

  unfoldable pub rerank_with_model :
      (batch_size : ℕ)
      → Model
      → (query : String) → Texts
      → (top_k : ℕ) → (score_threshold : Option Score) → RankedList × Bool
  unfolding scored candidates fallback_rank
  rerank_with_model batch_size m query texts top_k threshold =
      rank_scored (scored batch_size m query texts) texts top_k threshold

  -- The model that has been loaded, or none.
  abbrev pub rank_by :
      Option Model
      → (batch_size : ℕ) → (query : String) → Texts
      → (top_k : ℕ) → (score_threshold : Option Score) → RankedList × Bool
  rank_by none batch_size query texts top_k threshold = fallback_rank texts top_k threshold
  rank_by (some m) batch_size query texts top_k threshold =
      rerank_with_model batch_size m query texts top_k threshold

  abbrev pub or_setting : Option ℕ → (rag_top_k : ℕ) → ℕ
  or_setting none rag_top_k = rag_top_k
  or_setting (some top_k) rag_top_k = top_k

  abbrev result_of :
      (model_name : String) → (total_candidates : ℕ) → RankedList × Bool → RerankResult Score
  result_of model_name total_candidates (ranked, fallback_used) = record {
    documents = ranked;
    model_used = if fallback_used then "fallback" else model_name;
    total_candidates = total_candidates;
    returned_count = length ranked;
    fallback_used = fallback_used;
  }

  abbrev nothing : Reranker encoder → RerankResult Score
  nothing r = record {
    documents = [];
    model_used = r.model_name;
    total_candidates = 0;
    returned_count = 0;
    fallback_used = false;
  }

  -- The ranking of documents of which there are some.
  abbrev pub rank_texts :
      (query : String)
      → Texts
      → (top_k : ℕ) → (score_threshold : Option Score) → Bool × Reranker encoder
      → RerankResult Score × Reranker encoder
  rank_texts query texts top_k threshold (available, r) = (
    result_of r.model_name (length texts) (
        rank_by (if available then r.model else none) r.batch_size query texts
          (min top_k (length texts)) threshold),
    r,
  )

  module _ (print_dict : Dict String → String) (rag_top_k : ℕ) where
    unfoldable pub rerank_detailed :
        (query : String)
        → List Document
        → (top_k : Option ℕ) → (score_threshold : Option Score) → Reranker encoder
        → RerankResult Score × Reranker encoder
    unfolding load_model rerank_with_model normalize_documents
    rerank_detailed query [] top_k threshold r = (nothing r, r)
    rerank_detailed query (d ∷ ds) top_k threshold r =
        rank_texts query (normalize_documents print_dict (d ∷ ds)) (or_setting top_k rag_top_k)
          threshold (load_model r)

    unfoldable pub rerank :
        (query : String)
        → List Document
        → (top_k : Option ℕ) → (score_threshold : Option Score) → Reranker encoder
        → List (String × Score) × Reranker encoder
    unfolding rerank_detailed
    rerank query docs top_k threshold r =
        let (result, r') = rerank_detailed query docs top_k threshold r in
        (map (λ d. (d.content, d.score)) result.documents, r')
