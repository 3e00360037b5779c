-- ===== src/CostRouter/Score.antt =====
-- ai/cost_router.py, `ComplexityScorer.score`: the score, in hundredths. The descriptions of the
-- factors are left out. `lower` is `str.lower`, a parameter.
use ai_chat_bot_v.Base.{
  ℕ, ◌+◌, ◌*◌, ◌≤◌, Bool, true, not, ◌&&◌, ◌||◌, List, [], ◌∷◌, String, length, filter, any, ltb,
  min, ◌==◌, if◌then◌else◌, arith,
}
use ai_chat_bot_v.Base.Int.{ℤ, pos, negsuc, ◌+ℤ◌, ◌≤ℤ◌, int_laws}
use ai_chat_bot_v.Base.Text.{starts_with, Text, codes, is_space, is_empty}

-- `k in t`
unfoldable pub occurs_in : Text → Text → Bool
unfolding starts_with
occurs_in k [] = is_empty k
occurs_in k (d ∷ t) = starts_with k (d ∷ t) || occurs_in k t

-- `len(t.split())`: a word begins where a character that is no space follows a space or the start.
unfoldable pub count_words : (after_space : Bool) → Text → ℕ
count_words after_space [] = 0
count_words after_space (c ∷ t) =
    (if after_space && not (is_space c) then 1 else 0) + count_words (is_space c) t

abbrev pub complex_keywords : List String
complex_keywords =
    "explain" ∷ "analyze" ∷ "compare" ∷ "evaluate" ∷ "design" ∷ "architect" ∷ "implement" ∷ "debug"
    ∷ "optimize" ∷ "refactor" ∷ "review" ∷ "critique" ∷ "synthesize" ∷ "research" ∷ "investigate"
    ∷ "hypothesis" ∷ "strategy" ∷ "tradeoffs" ∷ "pros and cons" ∷ "difference between" ∷ "how does"
    ∷ "why does" ∷ "what causes" ∷ "step by step" ∷ "in detail" ∷ []

abbrev pub simple_keywords : List String
simple_keywords =
    "what is" ∷ "define" ∷ "list" ∷ "name" ∷ "when" ∷ "who" ∷ "where" ∷ "how many" ∷ "yes or no"
    ∷ "true or false" ∷ "translate" ∷ "summarize" ∷ []

abbrev pub code_keywords : List String
code_keywords =
    "code" ∷ "function" ∷ "class" ∷ "algorithm" ∷ "bug" ∷ "error" ∷ "exception" ∷ "implement"
    ∷ "write" ∷ "create" ∷ "build" ∷ "develop" ∷ "script" ∷ "python" ∷ "javascript" ∷ "typescript"
    ∷ "sql" ∷ "api" ∷ "database" ∷ []

abbrev pub snippet_signs : List String
snippet_signs = "```" ∷ "def " ∷ "class " ∷ "SELECT " ∷ "import " ∷ []

-- How many of the keywords occur.
unfoldable pub matches : List String → Text → ℕ
unfolding occurs_in
matches [] t = 0
matches (k ∷ ks) t = (if occurs_in (codes k) t then 1 else 0) + matches ks t

unfoldable pub length_factor : ℕ → ℤ
length_factor n =
    if ltb 500 n then pos 20 else if ltb 200 n then pos 10 else if ltb n 30 then negsuc 9 else pos 0

unfoldable pub context_factor : ℕ → ℤ
context_factor n = if ltb 10000 n then pos 15 else if ltb 3000 n then pos 5 else pos 0

-- `max(0.0, min(1.0, score))`
unfoldable pub clamp : ℤ → ℕ
clamp (pos n) = min 100 n
clamp (negsuc n) = 0

clamp_mono : (a b : ℤ) → a ≤ℤ b → clamp a ≤ clamp b
unfolding clamp
clamp_mono a b h = ground arith

clamp_le_hundred : (a : ℤ) → clamp a ≤ 100
unfolding clamp
clamp_le_hundred a = ground arith

context_factor_mono : (m n : ℕ) → m ≤ n → context_factor m ≤ℤ context_factor n
unfolding context_factor
context_factor_mono m n h = ground arith

+ℤ_mono_right : (f a b : ℤ) → a ≤ℤ b → f +ℤ a ≤ℤ f +ℤ b
+ℤ_mono_right f a b h = omega int_laws

module _ (lower : Text → Text) where
  -- The factors that do not look at the context.
  unfoldable pub query_factors : Text → ℤ
  unfolding length_factor count_words matches
  query_factors query =
      let low = lower query in
      let complex = matches complex_keywords low in
      let simple = matches simple_keywords low in
      let coding = matches code_keywords low in
      length_factor (length query)
      +ℤ (if ltb 50 (count_words true low) then pos 15 else pos 0)
      +ℤ pos (min 30 (complex * 10))
      +ℤ (if ltb 0 simple && complex == 0 then negsuc 14 else pos 0)
      +ℤ pos (min 25 (coding * 8))
      +ℤ (if ltb 2 (length (filter (λ c. c == b'?') query)) then pos 10 else pos 0)
      +ℤ (if any (λ k. occurs_in (codes k) low) snippet_signs then pos 20 else pos 0)

  unfoldable pub score : Text → ℕ → ℕ
  unfolding query_factors context_factor clamp
  score [] context = 0
  score (c ∷ t) context = clamp (query_factors (c ∷ t) +ℤ context_factor context)

  -- The score lies between 0 and 1, and never falls as the conversation grows longer.
  pub score_bounds :
      (query : Text) (shorter longer : ℕ)
      → shorter ≤ longer
      → (score query shorter ≤ score query longer) × (score query longer ≤ 100)
  unfolding score
  score_bounds [] shorter longer h = omega arith
  score_bounds (c ∷ t) shorter longer h = (
    clamp_mono _ _
        (+ℤ_mono_right (query_factors (c ∷ t)) _ _ (context_factor_mono shorter longer h)),
    clamp_le_hundred _,
  )
