-- ===== src/Reranker/Examples.antt =====
-- Runs of a reranker with a model that scores texts by their length.
use ai_chat_bot_v.Base.{
  ℕ, ◌-◌, ◌≡◌, refl, false, none, some, List, [], ◌∷◌, map, min, String, length, ltb,
}
use ai_chat_bot_v.Base.Dict.{Dict}
use ai_chat_bot_v.Base.Text.{codes}
use ai_chat_bot_v.Base.Sort.{sort_desc}
use ai_chat_bot_v.Reranker.{Encoder, loaded, Document, plain, keyed, Reranker}
use ai_chat_bot_v.Reranker.Ranked.{rerank}

abbrev encoder : Encoder
encoder = record {
  Model = Unit {0};
  Score = ℕ;
  below = ltb;
  load = λ name. loaded tt;
  predict = λ m ps. some (map (λ p. length (codes p.1)) ps);
  sigmoid = λ s. some s;
  passthrough = λ idx. 100 - idx;
  fused = λ i j. 100 - min i j;
}

abbrev fresh : Reranker encoder
fresh = record {
  model_name = "BAAI/bge-reranker-base";
  batch_size = 2;
  model = none;
  model_loaded = false;
  load_failed = false;
}

abbrev print_dict : Dict String → String
print_dict d = "{}"

abbrev docs : List Document
docs =
    plain "ab" ∷ keyed (("text", "abcd") ∷ ("source", "b.pdf") ∷ []) ∷ plain "" ∷ plain "abc" ∷ []

-- The longest texts come first, one that is too short is left out.
rerank_longest :
    (rerank encoder print_dict 3 "q" docs none (some 1) fresh).0
    ≡ ("abcd", 4) ∷ ("abc", 3) ∷ ("ab", 2) ∷ []
unfolding rerank sort_desc
rerank_longest = refl
