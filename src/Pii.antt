-- ===== src/Pii.antt =====
-- security/pii_redactor.py: the patterns, the values of Python that are redacted, and what the
-- redactor takes from Python's library, which is a parameter.
pub mod Table
pub mod Redact
pub mod Logs
pub mod Clean
pub mod Shape
pub mod Secrets
mod Examples
use ai_chat_bot_v.Base.{ℕ, ◌<◌, ◌≡◌, Bool, true, false, List, String}
use ai_chat_bot_v.Base.Text.{Text}

pub record PiiPattern : Type 0 where
  pub name : String
  pub pattern : String
  pub replacement : String
  pub priority : ℕ
  pub enabled : Bool
  pub description : String

-- A value: a text, a dict, a list, or anything else (a number, a tuple, an object), which is passed
-- on as it is.
mutual
  pub data Value : Type 0 where
    str : Text → Value
    dict : Fields → Value
    list : Items → Value
    other : ℕ → Value

  pub data Fields : Type 0 where
    end : Fields
    field : Text → Value → Fields → Fields

  pub data Items : Type 0 where
    nil : Items
    cons : Value → Items → Items

-- `compiled.search(text)`, `compiled.subn(token, text)`, `compiled.sub` with a function of the match,
-- `str.lower` and the digits of a SHA-256 sum in hexadecimal.
pub record Regexes : Type 0 where
  pub search : (pattern : String) → Text → Bool
  pub subn : (pattern : String) → (token : Text) → Text → Text × ℕ
  pub sub : (pattern : String) → (Text → Text) → Text → Text
  pub lower : Text → Text
  pub sha256 : Text → Text

-- As the module `re` has it, where a pattern is not found nothing is replaced.
pub record FindsNothing (regexes : Regexes) : Type 0 where
  pub subn_nothing :
      (p : String) (token t : Text) → regexes.search p t ≡ false → regexes.subn p token t ≡ (t, 0)
  pub sub_nothing :
      (p : String) (f : Text → Text) (t : Text) → regexes.search p t ≡ false → regexes.sub p f t ≡ t
