-- ===== src/Injection.antt =====
-- security/prompt_injection.py: the patterns, and what the detector takes from Python's library: the
-- regular expressions and the Unicode tables, which are parameters.
pub mod Table
pub mod Heuristics
pub mod Detect
pub mod Sanitize
pub mod Scan
pub mod Verdict
pub mod Clean
mod Examples
use ai_chat_bot_v.Base.{ℕ, Bool, Option, none, some, List, String, ◌≡◌, ◌≢◌, ltb, ◌<◌, All}
use ai_chat_bot_v.Base.Text.{Text, codes}

pub data Severity : Type 0 where
  low : Severity
  medium : Severity
  high : Severity
  critical : Severity

-- `flags` is the default everywhere and is left to `search`.
pub record InjectionPattern : Type 0 where
  pub name : String
  pub pattern : String
  pub severity : Severity
  pub description : String
  pub score : ℕ
  pub enabled : Bool

abbrev pub severity_rank : Severity → ℕ
severity_rank low = 1
severity_rank medium = 2
severity_rank high = 3
severity_rank critical = 4

-- `compiled.search(text)`, `unicodedata.normalize("NFKC", text)`, `str.lower`, `str.isalnum` of a
-- character, and `re.sub` of a pattern.
pub record Rules : Type 0 where
  pub search : (pattern : String) → Text → Bool
  pub nfkc : Text → Text
  pub lower : Text → Text
  pub is_alnum : ℕ → Bool
  pub sub : (pattern replacement : String) → (ignore_case : Bool) → Text → Text

-- As Unicode has it, a text of ASCII characters is its own normal form.
pub record KeepsAscii (rules : Rules) : Type 0 where
  pub nfkc_ascii : (t : Text) → All (λ c. c < 128) t → rules.nfkc t ≡ t

-- As documented for `re.sub`: the result is made of characters of the text and, where the replacement
-- has no backslash, of characters of the replacement.
pub record SubsOnly (rules : Rules) : Type 1 where
  pub sub_copies :
      (P : ℕ → Type 0) (pattern replacement : String) (ignore_case : Bool) (t : Text)
      → All (λ c. c ≢ 92) (codes replacement)
      → All P (codes replacement)
      → All P t
      → All P (rules.sub pattern replacement ignore_case t)
