-- ===== src/Reranker/Instance.antt =====
-- ai/reranker.py, `Reranker.__init__`, `get_reranker` and `rerank_documents`: the one reranker of the
-- program, which is made when it is first asked for and kept.
use ai_chat_bot_v.Base.{ℕ, false, Option, none, some, List, map, String, str_eq, if◌then◌else◌}
use ai_chat_bot_v.Base.Dict.{Dict}
use ai_chat_bot_v.Reranker.{Encoder, Reranker, plain}
use ai_chat_bot_v.Reranker.Ranked.{rerank}

-- `model_name or settings.rag_reranker_model`
abbrev or_model : Option String → (rag_reranker_model : String) → String
or_model none rag_reranker_model = rag_reranker_model
or_model (some name) rag_reranker_model = if str_eq name "" then rag_reranker_model else name

module _ (encoder : Encoder) (rag_reranker_model : String) where
  unfoldable pub new_reranker : (model_name : Option String) (batch_size : ℕ) → Reranker encoder
  new_reranker model_name batch_size = record {
    model_name = or_model model_name rag_reranker_model;
    batch_size = batch_size;
    model = none;
    model_loaded = false;
    load_failed = false;
  }

  -- `_reranker_instance`, or a new one.
  unfoldable pub get_reranker : Option (Reranker encoder) → Reranker encoder
  unfolding new_reranker
  get_reranker none = new_reranker none 32
  get_reranker (some r) = r

  -- The reranker that has been used stays the instance.
  unfoldable pub rerank_documents :
      (print_dict : Dict String → String) (rag_top_k : ℕ) (query : String) (documents : List String)
      → (top_k : ℕ) → Option (Reranker encoder)
      → List (String × encoder.Score) × Option (Reranker encoder)
  unfolding get_reranker rerank
  rerank_documents print_dict rag_top_k query documents top_k instance_ =
      let (found, r) =
        rerank encoder print_dict rag_top_k query (map plain documents) (some top_k) none
          (get_reranker instance_) in
      (found, some r)
