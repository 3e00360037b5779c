-- ===== src/Pii/Logs.antt =====
-- security/pii_redactor.py, `PIIRedactingFilter.filter`: the message, the arguments and the further
-- attributes of a record of the log.
use ai_chat_bot_v.Base.{
  Bool, true, ◌||◌, none, List, [], ◌∷◌, String, map, any, str_eq, if◌then◌else◌,
}
use ai_chat_bot_v.Base.Text.{Text, codes, starts_with}
use ai_chat_bot_v.Pii.{Value, str, dict, list, other, Fields, Regexes}
use ai_chat_bot_v.Pii.Redact.{redact_pii, redact_dict}

pub data Args : Type 0 where
  no_args : Args
  tuple : List Value → Args
  mapping : Fields → Args

pub record LogRecord : Type 0 where
  pub msg : Value
  pub args : Args
  pub attributes : List (String × Value)

abbrev pub own_attributes : List String
own_attributes =
    "name" ∷ "levelname" ∷ "levelno" ∷ "pathname" ∷ "filename" ∷ "module" ∷ "exc_info" ∷ "exc_text"
    ∷ "stack_info" ∷ "lineno" ∷ "funcName" ∷ "created" ∷ "msecs" ∷ "relativeCreated" ∷ "thread"
    ∷ "threadName" ∷ "processName" ∷ "process" ∷ "msg" ∷ "args" ∷ []

-- An attribute that the filter passes over.
abbrev pub is_passed : String → Bool
is_passed name = starts_with (codes "_") (codes name) || any (str_eq name) own_attributes

module _ (regexes : Regexes) (replacement : Text) where
  -- `redact_pii(v) if isinstance(v, str) else v`
  abbrev pub redact_text : Value → Value
  redact_text (str t) = str (redact_pii regexes replacement [] t)
  redact_text (dict fs) = dict fs
  redact_text (list vs) = list vs
  redact_text (other n) = other n

  abbrev pub redact_args : Args → Args
  redact_args no_args = no_args
  redact_args (tuple vs) = tuple (map redact_text vs)
  redact_args (mapping fs) = mapping (redact_dict regexes fs replacement none true)

  abbrev pub redact_attributes : List (String × Value) → List (String × Value)
  redact_attributes [] = []
  redact_attributes ((n, v) ∷ rest) =
      (n, if is_passed n then v else redact_text v) ∷ redact_attributes rest

  -- A record is never suppressed.
  unfoldable pub filter_record : LogRecord → Bool × LogRecord
  filter_record r = (
    true,
    record {
      msg = redact_text r.msg;
      args = redact_args r.args;
      attributes = redact_attributes r.attributes;
    },
  )
