-- ===== src/Compressor.antt =====
-- context_compressor.py: the history of one thread, bounded before it goes to a model.
-- A content is a list of code points; a role is a name. The call of the model router is the
-- parameter `complete` (a text, or `none` where the call raises).
pub mod Window
mod Examples
use ai_chat_bot_v.Base.{
  ℕ, ◌+◌, Bool, true, false, Option, none, some, List, [], ◌∷◌, ◌++◌, String, length, take, drop,
  take_last, drop_last, ltb, leb, str_eq, if◌then◌else◌,
}
use ai_chat_bot_v.Base.Text.Decimal.{decimal}
use ai_chat_bot_v.Base.Text.{Text, codes, strip, is_empty}

abbrev pub recent_verbatim_count : ℕ
recent_verbatim_count = 20

abbrev pub compression_threshold : ℕ
compression_threshold = 30

-- A normalised `{role, content}` dict.
pub record Message : Type 0 where
  pub role : String
  pub content : Text

-- What the callers pass: a dict, whose keys may be missing, or an object, whose attributes may be.
-- Either gives a role and a content that may be `None`.
pub data PastMessage : Type 0 where
  dict : Option String → Option Text → PastMessage
  row : Option String → Option Text → PastMessage

abbrev role_of : PastMessage → Option String
role_of (PastMessage.dict role content) = role
role_of (PastMessage.row role content) = role

abbrev content_of : PastMessage → Option Text
content_of (PastMessage.dict role content) = content
content_of (PastMessage.row role content) = content

pub record CompressionResult : Type 0 where
  pub messages : List Message
  pub was_compressed : Bool
  pub original_count : ℕ
  pub summarized_count : ℕ

abbrev or_empty : Option Text → Text
or_empty none = []
or_empty (some t) = t

-- `"assistant" if role == "assistant" else "user"`
abbrev pub normal_role : Option String → String
normal_role none = "user"
normal_role (some role) = if str_eq role "assistant" then "assistant" else "user"

-- The loop at the head of `compress_history`.
unfoldable pub normalize : List PastMessage → List Message
normalize [] = []
normalize (m ∷ ms) =
    let content = strip (or_empty (content_of m)) in
    if is_empty content
    then normalize ms
    else record { role = normal_role (role_of m); content = content } ∷ normalize ms

abbrev truncation_mark : Text
truncation_mark = codes " […truncated for summarization…]"

abbrev pub speaker : String → Text
speaker role = if str_eq role "assistant" then codes "Assistant" else codes "User"

-- One line of the transcript; a content of more than 1500 characters is cut.
unfoldable pub transcript_line : Message → Text
transcript_line m =
    let content =
      if ltb 1500 (length m.content) then take 1500 m.content ++ truncation_mark else m.content in
    speaker m.role ++ (codes ": " ++ content)

-- `sep.join(parts)`
unfoldable pub join : Text → List Text → Text
join sep [] = []
join sep (p ∷ []) = p
join sep (p ∷ q ∷ ps) = p ++ (sep ++ join sep (q ∷ ps))

abbrev transcript_lines : List Message → List Text
transcript_lines [] = []
transcript_lines (m ∷ ms) = transcript_line m ∷ transcript_lines ms

unfoldable pub format_for_summary : List Message → Text
unfolding transcript_line join
format_for_summary ms = join (10 ∷ 10 ∷ []) (transcript_lines ms)

abbrev instructions : Text
instructions =
    codes "Summarize the key facts, decisions, and context from this earlier "
    ++ codes "part of a conversation between a user and an AI engineering assistant. "
    ++ codes "Focus on anything that would matter for understanding later messages: "
    ++ codes "what the user is building, decisions already made, code or "
    ++ codes "approaches already discussed, and any open questions. Write it as a "
    ++ codes "compact paragraph, not a list. Do not include pleasantries or "
    ++ codes "filler."

unfoldable pub summary_prompt : List Message → Text
unfolding format_for_summary
summary_prompt ms =
    instructions
    ++ (10 ∷ 10 ∷ codes "--- Conversation so far ---")
    ++ (10 ∷ format_for_summary ms)
    ++ (10 ∷ codes "--- End ---")
    ++ (10 ∷ 10 ∷ codes "Summary:")

-- `summary or None`
abbrev non_empty : Text → Option Text
non_empty [] = none
non_empty (c ∷ t) = some (c ∷ t)

module _ (complete : Text → Option Text) where
  unfoldable pub summarize : List Message → Option Text
  summarize [] = none
  summarize (m ∷ ms) = elim (complete (summary_prompt (m ∷ ms))) [
    | none ↦ none
    | some response ↦ non_empty (strip response)
  ]

-- The note that stands for the older messages where no summary is to be had.
unfoldable pub truncate_fallback : List Message → Message
truncate_fallback older = record {
  role = "system";
  content =
      codes "["
      ++ decimal (length older)
      ++ codes " earlier messages in this conversation were "
      ++ codes "omitted to stay within context limits. Respond based on the "
      ++ codes "recent messages below; ask the user to restate anything from "
      ++ codes "earlier that turns out to be necessary.]";
}

-- The message that stands in front of the recent ones.
unfoldable pub head_message : Option Text → List Message → Message
unfolding truncate_fallback
head_message none older = truncate_fallback older
head_message (some summary) older = record {
  role = "system";
  content = codes "[Summary of earlier conversation]: " ++ summary;
}

module _ (complete : Text → Option Text) where
  unfoldable pub compress_history : List PastMessage → CompressionResult
  compress_history past =
      let normalized = normalize past in
      let recent = take_last recent_verbatim_count normalized in
      let older = drop_last recent_verbatim_count normalized in
      if leb (length normalized) compression_threshold
      then record {
        messages = normalized;
        was_compressed = false;
        original_count = length normalized;
        summarized_count = 0;
      }
      else record {
        messages = head_message (summarize complete older) older ∷ recent;
        was_compressed = true;
        original_count = length normalized;
        summarized_count = length older;
      }
