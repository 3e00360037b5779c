-- ===== src/Reranker.antt =====
-- ai/reranker.py: documents, the model that is loaded when it is first used, and the ranking. The
-- sentence-transformers library is a parameter, and so are the scores with what is computed of them:
-- no arithmetic of floats is modelled. What a document has under a key is a string.
pub mod Ranked
pub mod Fusion
pub mod Instance
mod Examples
use ai_chat_bot_v.Base.{
  ℕ, Bool, true, false, not, ◌&&◌, Option, none, some, List, [], ◌∷◌, map, String, str_eq, filter,
  any, if◌then◌else◌,
}
use ai_chat_bot_v.Base.Dict.{Dict, lookup}

-- What comes of making a `CrossEncoder`.
pub data Loading (Model : Type 0) : Type 0 where
  loaded : Model → Loading Model
  no_library : Loading Model
  load_error : Loading Model

-- The library and the scores: a model predicts a score for each pair of a query and a text, or
-- raises; `sigmoid` is `1 / (1 + math.exp(-s))`, which overflows for scores far below zero;
-- `passthrough` is `1.0 - idx * 0.01`; `fused` is the sum that `rerank_with_fusion` makes of two ranks.
pub record Encoder : Type 1 where
  pub Model : Type 0
  pub Score : Type 0
  pub below : Score → Score → Bool
  pub load : String → Loading Model
  pub predict : Model → List (String × String) → Option (List Score)
  pub sigmoid : Score → Option Score
  pub passthrough : ℕ → Score
  pub fused : (rerank_rank initial_rank : ℕ) → Score

-- A string, a dict, or something else, which only `str` reads.
pub data Document : Type 0 where
  plain : String → Document
  keyed : Dict String → Document
  other : (printed : String) → Document

-- `a or b`, of a value that may be missing.
abbrev or_text : Option String → String → String
or_text none t = t
or_text (some s) t = if str_eq s "" then t else s

abbrev content_keys : List String
content_keys = "content" ∷ "text" ∷ "page_content" ∷ []

-- `print_dict` is `str` of a dict.
module _ (print_dict : Dict String → String) where
  -- The text and the metadata of a document.
  unfoldable pub normalize_document : Document → String × Dict String
  normalize_document (plain t) = (t, [])
  normalize_document (keyed d) = (
    or_text (lookup "content" d)
        (or_text (lookup "text" d) (or_text (lookup "page_content" d) (print_dict d))),
    filter (λ e. not (any (str_eq e.0) content_keys)) d,
  )
  normalize_document (other printed) = (printed, [])

  unfoldable pub normalize_documents : List Document → List (String × Dict String)
  unfolding normalize_document
  normalize_documents docs = map normalize_document docs

-- `RERANKER_MODELS`
abbrev pub reranker_models : List String
reranker_models =
    "BAAI/bge-reranker-base" ∷ "cross-encoder/ms-marco-MiniLM-L-6-v2"
    ∷ "cross-encoder/ms-marco-MiniLM-L-12-v2" ∷ []

-- A `Reranker`, less the length that is passed on to the library.
pub record Reranker (encoder : Encoder) : Type 0 where
  pub model_name : String
  pub batch_size : ℕ
  pub model : Option encoder.Model
  pub model_loaded : Bool
  pub load_failed : Bool

module _ {encoder : Encoder} where
  -- The loop over the models to try: the first that loads is taken.
  unfoldable pub try_models : List String → Reranker encoder → Bool × Reranker encoder
  try_models [] r = (false, record r { load_failed = true; model_loaded = true })
  try_models (name ∷ names) r =
      let rest = try_models names r in
      elim (encoder.load name) [
        | loaded m ↦ (true, record r { model = some m; model_name = name; model_loaded = true })
        | no_library ↦ (false, record r { load_failed = true })
        | load_error ↦ rest
      ]

  unfoldable pub load_model : Reranker encoder → Bool × Reranker encoder
  unfolding try_models
  load_model r =
      if r.model_loaded
      then (elim r.model [ none ↦ false | some m ↦ true ], r)
      else if r.load_failed
      then (false, r)
      else try_models (r.model_name ∷ filter (λ m. not (str_eq m r.model_name)) reranker_models) r
