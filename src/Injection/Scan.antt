-- ===== src/Injection/Scan.antt =====
-- security/prompt_injection.py: the loop over the patterns against two sums over the table, in any
-- order: the scores of the patterns that match, and the greatest rank of their severities.
use ai_chat_bot_v.Base.{
  ℕ, ◌+◌, ◌≡◌, refl, ◌∙◌, Bool, true, ◌&&◌, Option, none, some, List, [], ◌∷◌, filter, ltb, max,
  if◌then◌else◌, arith,
}
use ai_chat_bot_v.Base.Text.{Text}
use ai_chat_bot_v.Base.Sort.{place, sort_desc}
use ai_chat_bot_v.Injection.{Severity, InjectionPattern, severity_rank, Rules}
use ai_chat_bot_v.Injection.Table.{injection_patterns}
use ai_chat_bot_v.Injection.Detect.{compiled_patterns, Scan, noted, higher, scan}

abbrev pub rank_of : Option Severity → ℕ
rank_of none = 0
rank_of (some s) = severity_rank s

rank-higher :
    (s : Severity) (o : Option Severity) → rank_of (higher s o) ≡ max (severity_rank s) (rank_of o)
rank-higher s none = omega arith
rank-higher s (some h) = ground arith

module _ (rules : Rules) (t : Text) where
  -- An enabled pattern that is found.
  abbrev pub found : InjectionPattern → Bool
  found p = p.enabled && rules.search p.pattern t

  unfoldable pub risk : List InjectionPattern → ℕ
  risk [] = 0
  risk (p ∷ ps) = (if found p then p.score else 0) + risk ps

  unfoldable pub worst : List InjectionPattern → ℕ
  worst [] = 0
  worst (p ∷ ps) = max (if found p then severity_rank p.severity else 0) (worst ps)

  -- Neither sum depends on the order or on the patterns that are not enabled.
  risk-place :
      (p : InjectionPattern) (ps : List InjectionPattern)
      → risk (place ltb (λ q. q.score) p ps) ≡ (if found p then p.score else 0) + risk ps
  unfolding risk place
  risk-place p [] = refl
  risk-place p (q ∷ qs) = ground (arith, risk-place p qs)

  risk-sort : (ps : List InjectionPattern) → risk (sort_desc ltb (λ q. q.score) ps) ≡ risk ps
  unfolding risk sort_desc
  risk-sort [] = refl
  risk-sort (p ∷ ps) = omega (arith, risk-place p (sort_desc ltb (λ q. q.score) ps), risk-sort ps)

  risk-enabled : (ps : List InjectionPattern) → risk (filter (λ p. p.enabled) ps) ≡ risk ps
  unfolding risk
  risk-enabled [] = refl
  risk-enabled (p ∷ ps) = ground (arith, risk-enabled ps)

  pub risk-compiled : risk compiled_patterns ≡ risk injection_patterns
  unfolding compiled_patterns
  risk-compiled =
      risk-enabled (sort_desc ltb (λ p. p.score) injection_patterns) ∙ risk-sort injection_patterns

  worst-place :
      (p : InjectionPattern) (ps : List InjectionPattern)
      → worst (place ltb (λ q. q.score) p ps)
        ≡ max (if found p then severity_rank p.severity else 0) (worst ps)
  unfolding worst place
  worst-place p [] = refl
  worst-place p (q ∷ qs) = ground (arith, worst-place p qs)

  worst-sort : (ps : List InjectionPattern) → worst (sort_desc ltb (λ q. q.score) ps) ≡ worst ps
  unfolding worst sort_desc
  worst-sort [] = refl
  worst-sort (p ∷ ps) =
      omega (arith, worst-place p (sort_desc ltb (λ q. q.score) ps), worst-sort ps)

  worst-enabled : (ps : List InjectionPattern) → worst (filter (λ p. p.enabled) ps) ≡ worst ps
  unfolding worst
  worst-enabled [] = refl
  worst-enabled (p ∷ ps) = ground (arith, worst-enabled ps)

  pub worst-compiled : worst compiled_patterns ≡ worst injection_patterns
  unfolding compiled_patterns
  worst-compiled =
      worst-enabled (sort_desc ltb (λ p. p.score) injection_patterns)
      ∙ worst-sort injection_patterns

  abbrev AllEnabled : List InjectionPattern → Type 0
  AllEnabled [] = Unit
  AllEnabled (p ∷ ps) = (p.enabled ≡ true) × AllEnabled ps

  -- The loop adds up the first, and its highest severity has the rank of the second.
  scan-total :
      (ps : List InjectionPattern) (f : Scan)
      → AllEnabled ps
      → (scan rules ps t f).total_score ≡ f.total_score + risk ps
  unfolding scan risk
  scan-total [] f h = omega arith
  scan-total (p ∷ ps) f h = ground (arith, h.0, scan-total ps (noted p f) h.1, scan-total ps f h.1)

  scan-rank :
      (ps : List InjectionPattern) (f : Scan)
      → AllEnabled ps
      → rank_of (scan rules ps t f).highest_severity ≡ max (rank_of f.highest_severity) (worst ps)
  unfolding scan worst
  scan-rank [] f h = omega arith
  scan-rank (p ∷ ps) f h = ground (
    arith,
    h.0,
    rank-higher p.severity f.highest_severity,
    scan-rank ps (noted p f) h.1,
    scan-rank ps f h.1,
  )

  filter-AllEnabled : (ps : List InjectionPattern) → AllEnabled (filter (λ p. p.enabled) ps)
  filter-AllEnabled [] = tt
  filter-AllEnabled (p ∷ ps) = ground (arith, filter-AllEnabled ps)

  compiled_enabled : AllEnabled compiled_patterns
  unfolding compiled_patterns
  compiled_enabled = filter-AllEnabled (sort_desc ltb (λ p. p.score) injection_patterns)

  pub scan_total :
      (f : Scan)
      → (scan rules compiled_patterns t f).total_score ≡ f.total_score + risk injection_patterns
  scan_total f = scan-total compiled_patterns f compiled_enabled ∙ rw risk-compiled

  pub scan_rank :
      (f : Scan)
      → rank_of (scan rules compiled_patterns t f).highest_severity
        ≡ max (rank_of f.highest_severity) (worst injection_patterns)
  scan_rank f = scan-rank compiled_patterns f compiled_enabled ∙ rw worst-compiled
