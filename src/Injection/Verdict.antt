-- ===== src/Injection/Verdict.antt =====
-- security/prompt_injection.py: what the detector answers, against the sums of Injection/Scan.
use ai_chat_bot_v.Base.{
  ℕ, ◌+◌, ◌≤◌, ◌≡◌, refl, ap, Bool, ◌&&◌, Option, [], ◌∷◌, ◌++◌, take, length, ltb, leb,
  if◌then◌else◌,
}
use ai_chat_bot_v.Base.Text.{Text}
use ai_chat_bot_v.Injection.{Severity, InjectionPattern, severity_rank, Rules}
use ai_chat_bot_v.Injection.Table.{injection_patterns}
use ai_chat_bot_v.Injection.Heuristics.{normalize_input, run_heuristics}
use ai_chat_bot_v.Injection.Detect.{Detection, judge, detect_injection}
use ai_chat_bot_v.Injection.Scan.{rank_of, found, risk, worst}

-- Severities of the two upper ranks, as a refusal names them.
abbrev pub IsHigh : Option Severity → Type 0
IsHigh o = 3 ≤ rank_of o

module _ (rules : Rules) where
  -- The detection of a text that is seen as `seen`.
  abbrev pub Verdict : (threshold : ℕ) → (seen : Text) → Detection → Type 0
  Verdict threshold seen d =
      (d.is_safe
        ≡ ltb (risk rules seen injection_patterns + (run_heuristics rules seen).0) threshold)
      × (rank_of d.severity ≡ (if d.is_safe then 0 else worst rules seen injection_patterns))

  -- A pattern that is found and by whose score alone every check refuses.
  abbrev pub serious : Text → InjectionPattern → Bool
  serious seen p = found rules seen p && leb 7 p.score

  -- A pattern of that score whose severity is neither high nor critical.
  abbrev is_understated : InjectionPattern → Bool
  is_understated p = leb 7 p.score && leb (severity_rank p.severity) 2

  take_append : (a b : Text) → take (length a) (a ++ b) ≡ take (length a) a
  take_append [] b = refl
  take_append (x ∷ a) b = ap (λ (r : Text). x ∷ r) (take_append a b)

  -- What follows the first characters that the limit admits is not looked at: whatever text is
  -- appended to one of that length, the detection is the same.
  pub detect_injection_unseen :
      (c : ℕ) (t rest : Text) (threshold : ℕ)
      → detect_injection rules ((c ∷ t) ++ rest) threshold (length (c ∷ t))
        ≡ detect_injection rules (c ∷ t) threshold (length (c ∷ t))
  unfolding detect_injection
  detect_injection_unseen c t rest threshold =
      ap (λ (r : Text). judge rules threshold (normalize_input rules (c ∷ r))) (take_append t rest)
