-- ===== src/Injection/Detect.antt =====
-- security/prompt_injection.py: `detect_injection` with its loop over the patterns, the full analysis
-- and the check of the routes. The log is left out.
use ai_chat_bot_v.Base.{
  ℕ, ◌+◌, Bool, true, false, Option, none, some, List, [], ◌∷◌, ◌++◌, String, filter, take, ltb,
  if◌then◌else◌,
}
use ai_chat_bot_v.Base.Text.{Text}
use ai_chat_bot_v.Base.Sort.{sort_desc}
use Prim.Native.String.{◌++◌ as ◌<>◌}
use ai_chat_bot_v.Injection.{
  Severity, low, medium, high, critical, InjectionPattern, severity_rank, Rules,
}
use ai_chat_bot_v.Injection.Table.{injection_patterns}
use ai_chat_bot_v.Injection.Heuristics.{normalize_input, run_heuristics}
use ai_chat_bot_v.Injection.Sanitize.{sanitize_prompt}

-- `_COMPILED_PATTERNS`: the patterns that are enabled, the greatest score first.
unfoldable pub compiled_patterns : List InjectionPattern
unfolding sort_desc
compiled_patterns = filter (λ p. p.enabled) (sort_desc ltb (λ p. p.score) injection_patterns)

-- `severity.value.upper()`
abbrev label : Severity → String
label low = "LOW"
label medium = "MEDIUM"
label high = "HIGH"
label critical = "CRITICAL"

abbrev pub reason : InjectionPattern → String
reason p = label p.severity <> ": " <> p.description

-- The local variables of the loop.
pub record Scan : Type 0 where
  pub total_score : ℕ
  pub triggered : List String
  pub reasons : List String
  pub highest_severity : Option Severity

abbrev pub nothing_found : Scan
nothing_found = record { total_score = 0; triggered = []; reasons = []; highest_severity = none }

abbrev pub higher : Severity → Option Severity → Option Severity
higher s none = some s
higher s (some h) = if ltb (severity_rank h) (severity_rank s) then some s else some h

abbrev pub noted : InjectionPattern → Scan → Scan
noted p f = record {
  total_score = f.total_score + p.score;
  triggered = f.triggered ++ (p.name ∷ []);
  reasons = f.reasons ++ (reason p ∷ []);
  highest_severity = higher p.severity f.highest_severity;
}

pub record Detection : Type 0 where
  pub is_safe : Bool
  pub severity : Option Severity
  pub reasons : List String

pub record DetectionResult : Type 0 where
  pub is_safe : Bool
  pub severity : Option Severity
  pub total_score : ℕ
  pub triggered_patterns : List String
  pub reasons : List String
  pub sanitized_input : Text

-- The answer of `check_input`: allowed, or refused with the severity that the message names.
pub data Check : Type 0 where
  allowed : Check
  rejected : Option Severity → Check

abbrev pub threshold_of : (block_on_medium : Bool) → ℕ
threshold_of block_on_medium = if block_on_medium then 4 else 7

abbrev pub to_check : Detection → Check
to_check d = if d.is_safe then allowed else rejected d.severity

module _ (rules : Rules) where
  unfoldable pub scan : List InjectionPattern → Text → Scan → Scan
  scan [] t f = f
  scan (p ∷ ps) t f = scan ps t (if rules.search p.pattern t then noted p f else f)

  -- What the loop and the heuristics found of a text that is normalized.
  unfoldable pub judge : (threshold : ℕ) → Text → Detection
  unfolding scan
  judge threshold t =
      let f = scan compiled_patterns t nothing_found in
      let (score, reasons) = run_heuristics rules t in
      let is_safe = ltb (f.total_score + score) threshold in
      record {
        is_safe = is_safe;
        severity = if is_safe then none else f.highest_severity;
        reasons = f.reasons ++ reasons;
      }

  unfoldable pub detect_injection : Text → (threshold_score max_input_length : ℕ) → Detection
  unfolding judge
  detect_injection [] threshold max_length = record {
    is_safe = true;
    severity = none;
    reasons = [];
  }
  detect_injection (c ∷ t) threshold max_length =
      judge threshold (normalize_input rules (take max_length (c ∷ t)))

  -- `_normalize_input(user_input) if user_input else ""`
  abbrev pub normalize_whole : Text → Text
  normalize_whole [] = []
  normalize_whole (c ∷ t) = normalize_input rules (c ∷ t)

  -- The patterns are searched once more in the whole text, and the heuristics are not counted.
  unfoldable pub analyze_injection : Text → DetectionResult
  unfolding detect_injection
  analyze_injection t =
      let d = detect_injection t 4 50_000 in
      let f = scan compiled_patterns (normalize_whole t) nothing_found in
      record {
        is_safe = d.is_safe;
        severity = d.severity;
        total_score = f.total_score;
        triggered_patterns = f.triggered;
        reasons = d.reasons;
        sanitized_input = if d.is_safe then t else sanitize_prompt rules t false;
      }

  unfoldable pub check_input : Text → (block_on_medium : Bool) → Check
  check_input t block_on_medium =
      to_check (detect_injection t (threshold_of block_on_medium) 50_000)
