-- ===== src/Reranker/Fusion.antt =====
-- ai/reranker.py, `rerank_with_fusion`: the ranks of the model and of the retrieval are joined.
use ai_chat_bot_v.Base.{
  ℕ, suc, ◌==◌, Option, none, some, List, [], ◌∷◌, map, String, length, take, if◌then◌else◌,
}
use ai_chat_bot_v.Base.Dict.{Dict, get_or, insert}
use ai_chat_bot_v.Base.Sort.{sort_desc}
use ai_chat_bot_v.Reranker.{Encoder, plain, Reranker}
use ai_chat_bot_v.Reranker.Ranked.{rerank}

-- `{doc: rank for rank, doc in enumerate(docs)}`: a document that comes twice has its last rank.
unfoldable pub ranks : (rank : ℕ) → List String → Dict ℕ → Dict ℕ
unfolding insert
ranks rank [] d = d
ranks rank (doc ∷ docs) d = ranks (suc rank) docs (insert doc rank d)

module _ (encoder : Encoder) where
  open encoder use {Score}

  abbrev with_scores : List String → List Score → List (String × Score)
  with_scores [] ss = []
  with_scores (doc ∷ docs) [] = []
  with_scores (doc ∷ docs) (s ∷ ss) = (doc, s) ∷ with_scores docs ss

  -- The documents in the order of the retrieval.
  unfoldable pub initial_ranked : List String → List Score → List String
  unfolding sort_desc
  initial_ranked docs initial_scores =
      map (λ x. x.0) (sort_desc encoder.below (λ x. x.1) (with_scores docs initial_scores))

  -- `fused_scores`, of the documents in their order; `default` is their number.
  unfoldable pub fuse :
      (reranked initial : Dict ℕ) (default : ℕ) → List String → Dict Score → Dict Score
  unfolding insert
  fuse reranked initial default [] d = d
  fuse reranked initial default (doc ∷ docs) d =
      fuse reranked initial default docs
        (insert doc (encoder.fused (get_or doc reranked default) (get_or doc initial default)) d)

  unfoldable pub fused_ranking :
      (reranked : List (String × Score)) (docs : List String) (initial_scores : List Score)
      → List (String × Score)
  unfolding ranks initial_ranked fuse sort_desc
  fused_ranking reranked docs initial_scores =
      sort_desc encoder.below (λ x. x.1)
        (fuse (ranks 0 (map (λ x. x.0) reranked) [])
          (ranks 0 (initial_ranked docs initial_scores) []) (length docs) docs [])

  -- `top_k or settings.rag_top_k`
  abbrev or_positive : Option ℕ → ℕ → ℕ
  or_positive none rag_top_k = rag_top_k
  or_positive (some top_k) rag_top_k = if top_k == 0 then rag_top_k else top_k

  -- Scores of another number than the documents are not used.
  abbrev ranked_with :
      (initial_scores : Option (List Score)) (reranked : List (String × Score)) (docs : List String)
      → List (String × Score)
  ranked_with none reranked docs = reranked
  ranked_with (some scores) reranked docs =
      if length scores == length docs then fused_ranking reranked docs scores else reranked

  module _ (print_dict : Dict String → String) (rag_top_k : ℕ) where
    unfoldable pub rerank_with_fusion :
        (query : String) (docs : List String) (initial_scores : Option (List Score))
        (top_k : Option ℕ)
        → Reranker encoder
        → List (String × Score) × Reranker encoder
    unfolding fused_ranking rerank
    rerank_with_fusion query [] initial_scores top_k r = ([], r)
    rerank_with_fusion query (doc ∷ docs) initial_scores top_k r =
        let (reranked, r') =
          rerank encoder print_dict rag_top_k query (map plain (doc ∷ docs))
            (some (length (doc ∷ docs))) none r in
        (take (or_positive top_k rag_top_k) (ranked_with initial_scores reranked (doc ∷ docs)), r')
