-- ===== src/Injection/Heuristics.antt =====
-- security/prompt_injection.py: `_normalize_input` and `_run_heuristics`.
use ai_chat_bot_v.Base.{
  ℕ, zero, suc, ◌+◌, ◌*◌, ◌-◌, Bool, true, false, not, ◌&&◌, ◌||◌, List, [], ◌∷◌, ◌++◌, String,
  length, count, ltb, ◌==◌, max, if◌then◌else◌,
}
use ai_chat_bot_v.Base.Text.{Text, codes, is_space, starts_with}
use ai_chat_bot_v.Injection.{Rules}

abbrev is_blank : ℕ → Bool
is_blank c = c == b' ' || c == 9

-- `re.sub(r"[ \t]+", " ", text)`: a run of blanks becomes one space.
unfoldable pub collapse_blanks : (after_blank : Bool) → Text → Text
collapse_blanks after_blank [] = []
collapse_blanks after_blank (c ∷ t) =
    let rest = collapse_blanks (is_blank c) t in
    if is_blank c then (if after_blank then rest else b' ' ∷ rest) else c ∷ rest

-- `t.count(k)` of a text that is not empty: occurrences do not overlap, so that after one the next
-- `len(k) - 1` characters are skipped.
unfoldable pub count_occurrences : (skip : ℕ) → Text → Text → ℕ
count_occurrences skip k [] = 0
count_occurrences (suc n) k (c ∷ t) = count_occurrences n k t
count_occurrences zero k (c ∷ t) = elim (starts_with k (c ∷ t)) [
  | true ↦ 1 + count_occurrences (length k - 1) k t
  | false ↦ count_occurrences 0 k t
]

-- `any(len(w) > 200 for w in text.split())`, where `run` characters of a word are behind.
unfoldable pub has_long_word : (run : ℕ) → Text → Bool
has_long_word run [] = ltb 200 run
has_long_word run (c ∷ t) =
    (is_space c && ltb 200 run) || has_long_word (if is_space c then 0 else run + 1) t

abbrev instruction_words : List String
instruction_words =
    "must" ∷ "should" ∷ "always" ∷ "never" ∷ "do not" ∷ "you will" ∷ "your task" ∷ []

abbrev count_all : List String → Text → ℕ
count_all [] t = 0
count_all (w ∷ ws) t = count_occurrences 0 (codes w) t + count_all ws t

-- A check adds its score and its reason where it fires.
abbrev fire : Bool → ℕ → String → ℕ × List String → ℕ × List String
fire fires n reason (score, reasons) =
    if fires then (score + n, reasons ++ (reason ∷ [])) else (score, reasons)

module _ (rules : Rules) where
  unfoldable pub normalize_input : Text → Text
  unfolding collapse_blanks
  normalize_input t = collapse_blanks false (rules.nfkc t)

  abbrev is_special : ℕ → Bool
  is_special c = not (rules.is_alnum c) && not (is_space c)

  -- The ratio of special characters is above 0.4 where five times their number is above twice the
  -- length.
  unfoldable pub run_heuristics : Text → ℕ × List String
  unfolding has_long_word count_occurrences
  run_heuristics t =
      fire (ltb 8 (count_all instruction_words (rules.lower t))) 2
        "LOW: High density of instruction-like language"
        (fire (has_long_word 0 t) 3 "MEDIUM: Unusually long word — possible encoded payload" (
          fire (ltb 20 (count (λ c. c == 10) t)) 2
            "LOW: Excessive newlines — possible delimiter injection attempt"
            (fire (ltb (2 * max (length t) 1) (5 * count is_special t)) 3
              "MEDIUM: Unusually high ratio of special characters (possible obfuscation)" (0, []))))
