-- ===== src/Router/Messages.antt =====
-- model_router.py: the messages of one request, and the forms in which they go to the providers.
pub mod Systems
use ai_chat_bot_v.Base.{
  ℕ, ◌/◌, max, Bool, Option, none, some, List, [], ◌∷◌, ◌++◌, String, length, ltb, str_eq,
  if◌then◌else◌, take, ◌-◌,
}
use ai_chat_bot_v.Base.Text.{Text, is_empty}

pub record ChatMessage : Type 0 where
  pub role : String
  pub content : Text

-- `estimate_tokens`
unfoldable pub estimate_tokens : Text → ℕ
estimate_tokens text = max 1 (length text / 4)

-- An entry of the history: a dict or an object, whose role or content may be missing.
pub data Turn : Type 0 where
  dict : Option String → Option Text → Turn
  row : Option String → Option Text → Turn

-- The two branches of the loop of `build_messages`; an entry that lacks a part is skipped.
abbrev from_turn : Turn → List ChatMessage
from_turn (Turn.dict (some role) (some content)) = record { role = role; content = content } ∷ []
from_turn (Turn.row (some role) (some content)) = record { role = role; content = content } ∷ []
from_turn t = []

unfoldable pub from_history : List Turn → List ChatMessage
from_history [] = []
from_history (t ∷ ts) = from_turn t ++ from_history ts

-- `if system_prompt: messages.append({"role": "system", …})`
abbrev pub system_part : Option Text → List ChatMessage
system_part none = []
system_part (some t) = if is_empty t then [] else record { role = "system"; content = t } ∷ []

unfoldable pub build_messages : Text → Option Text → List Turn → List ChatMessage
unfolding from_history
build_messages prompt system_prompt history =
    system_part system_prompt
    ++ (from_history history ++ record { role = "user"; content = prompt } ∷ [])

-- The loop of `_call_gemini`: the system instruction so far, and the messages in Gemini's roles.
unfoldable pub gemini_loop : List ChatMessage → Option Text → Option Text × List ChatMessage
gemini_loop [] system = (system, [])
gemini_loop (m ∷ ms) system =
    if str_eq m.role "system"
    then gemini_loop ms (some m.content)
    else let (instruction, rest) = gemini_loop ms system in
      if str_eq m.role "user"
      then (instruction, record { role = "user"; content = m.content } ∷ rest)
      else if str_eq m.role "assistant"
      then (instruction, record { role = "model"; content = m.content } ∷ rest)
      else (instruction, rest)

pub record GeminiRequest : Type 0 where
  pub system_instruction : Option Text
  pub chat_history : List ChatMessage
  pub prompt : Text

-- The last message, if any, and those before it.
unfoldable pub split_last : List ChatMessage → List ChatMessage × Text
split_last [] = ([], [])
split_last (m ∷ []) = ([], m.content)
split_last (m ∷ n ∷ ms) = let (before, last) = split_last (n ∷ ms) in (m ∷ before, last)

-- `if system_instruction:` an empty instruction is not sent.
abbrev pub truthy : Option Text → Option Text
truthy none = none
truthy (some t) = if is_empty t then none else some t

-- What `_call_gemini` sends: `start_chat` with the messages before the last one, or one prompt.
unfoldable pub gemini_request : List ChatMessage → GeminiRequest
unfolding gemini_loop split_last
gemini_request messages =
    let (instruction, converted) = gemini_loop messages none in
    let (before, last) = split_last converted in
    record { system_instruction = truthy instruction; chat_history = before; prompt = last }

-- The loop of `_call_anthropic`.
unfoldable pub anthropic_loop : List ChatMessage → Option Text → Option Text × List ChatMessage
anthropic_loop [] system = (system, [])
anthropic_loop (m ∷ ms) system =
    if str_eq m.role "system"
    then anthropic_loop ms (some m.content)
    else let (prompt, rest) = anthropic_loop ms system in (prompt, m ∷ rest)

-- The `system` and `messages` of the payload of `_call_anthropic`.
unfoldable pub anthropic_payload : List ChatMessage → Option Text × List ChatMessage
unfolding anthropic_loop
anthropic_payload messages =
    let (system, rest) = anthropic_loop messages none in (truthy system, rest)
