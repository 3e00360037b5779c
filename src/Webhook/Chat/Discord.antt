-- ===== src/Webhook/Chat/Discord.antt =====
-- webhook_handler.py, `_verify_discord_signature` and `discord_webhook`.
use Prim.Native.String.{◌++◌ as ◌<>◌}
use ai_chat_bot_v.Base.{
  ℕ, ◌≤◌, arith, Bool, false, not, ◌||◌, ◌==◌, Option, none, some, String, str_eq, ltb, length,
  length-append, length-take, take, Bool-cases, inl, inr, if◌then◌else◌, List, [], ◌∷◌, ◌++◌,
}
use ai_chat_bot_v.Base.Text.{Text, codes, is_empty}
use ai_chat_bot_v.Webhook.Chat.{Crypto, Asking}

pub data DiscordAnswer : Type 0 where
  not_configured : DiscordAnswer
  missing_headers : DiscordAnswer
  unauthorized : DiscordAnswer
  ping : DiscordAnswer
  message : Text → DiscordAnswer
  unknown_interaction : DiscordAnswer

-- The headers, the body, and what is read of its JSON; the options are names with their values.
pub record DiscordRequest : Type 0 where
  pub signature : String
  pub timestamp : String
  pub raw_body : String
  pub interaction_type : ℕ
  pub command_name : String
  pub member_id : Option String
  pub user_id : Option String
  pub options : List (String × Text)

-- Any exception of the library counts as a refusal.
abbrev accepted : Option Bool → Bool
accepted none = false
accepted (some b) = b

module _ (crypto : Crypto) where
  unfoldable pub verify_discord_signature : (public_key body signature timestamp : String) → Bool
  verify_discord_signature public_key body signature timestamp =
      if str_eq public_key ""
      then false
      else accepted (crypto.verify_key public_key body signature timestamp)

-- The value of the first option that is the question.
abbrev question_of : List (String × Text) → Option Text
question_of [] = none
question_of ((name, value) ∷ options) =
    if str_eq name "question" then some value else question_of options

abbrev id_or_default : Option String → String
id_or_default none = "discord_user"
id_or_default (some id) = id

-- `member id or user id`, where the latter has a default.
abbrev user_of : Option String → Option String → String
user_of none u = id_or_default u
user_of (some m) u = if str_eq m "" then id_or_default u else m

-- Discord takes 2000 characters.
unfoldable pub cut_answer : Text → Text
cut_answer answer =
    if ltb 1900 (length answer)
    then take 1900 answer ++ codes "...\n*(Response truncated)*"
    else answer

abbrev pub content_of_answer : Text → Text
content_of_answer answer = codes "🤖 **DevMentor AI:**\n" ++ cut_answer answer

abbrev sorry_text : Option Text → Text
sorry_text none = codes "Sorry, I couldn't process your request right now."
sorry_text (some answer) = answer

module _ (crypto : Crypto) (asking : Asking) where
  abbrev ask_question : Option Text → DiscordRequest → asking.World → DiscordAnswer × asking.World
  ask_question none r w = (message (codes "Please provide a question."), w)
  ask_question (some question) r w =
      let (answer, w') = asking.ask question ("discord_" <> user_of r.member_id r.user_id) w in
      if is_empty question
      then (message (codes "Please provide a question."), w)
      else (message (content_of_answer (sorry_text answer)), w')

  -- An interaction with a signature that is accepted; a command that is not `ask` ends like an unknown type.
  unfoldable pub discord_interaction : DiscordRequest → asking.World → DiscordAnswer × asking.World
  unfolding cut_answer
  discord_interaction r w =
      if r.interaction_type == 1
      then (ping, w)
      else if r.interaction_type == 2
      then if str_eq r.command_name "ask"
        then ask_question (question_of r.options) r w
        else (unknown_interaction, w)
      else (unknown_interaction, w)

  unfoldable pub discord_webhook :
      (public_key : String) → DiscordRequest → asking.World → DiscordAnswer × asking.World
  unfolding discord_interaction verify_discord_signature
  discord_webhook public_key r w =
      if str_eq public_key ""
      then (not_configured, w)
      else if str_eq r.signature "" || str_eq r.timestamp ""
      then (missing_headers, w)
      else if not (verify_discord_signature crypto public_key r.raw_body r.signature r.timestamp)
      then (unauthorized, w)
      else discord_interaction r w

-- Whatever the model answers, the message fits into Discord's limit.
pub content_of_answer-le : (answer : Text) → length (content_of_answer answer) ≤ 2000
unfolding cut_answer
content_of_answer-le answer = elim (Bool-cases (ltb 1900 (length answer))) [
  | inr short ↦ rw short (ground (arith, short))
  | inl long ↦
      rw
        (
          long,
          length-append (take 1900 answer) (codes "...\n*(Response truncated)*"),
          length-take 1900 answer,
        )
        (omega arith)
]
