-- ===== src/Webhook/Chat/Slack.antt =====
-- webhook_handler.py, `_verify_slack_signature` and `slack_webhook`.
use Prim.Native.String.{◌++◌ as ◌<>◌}
use ai_chat_bot_v.Base.{
  ℕ, suc, ◌+◌, ◌-◌, ◌<◌, ◌≡◌, refl, arith, Bool, true, false, not, ◌||◌, Option, none, some, String,
  str_eq, ltb, leb, Bool-cases, inl, inr, if◌then◌else◌, ◌++◌,
}
use ai_chat_bot_v.Base.Int.{ℤ, pos, negsuc}
use ai_chat_bot_v.Base.Text.{Text, codes, strip, is_empty}
use ai_chat_bot_v.Webhook.Chat.{Crypto, Asking}

-- `abs(current_time - request_time)`, in seconds.
abbrev pub distance : (current_time : ℕ) → (request_time : ℤ) → ℕ
distance now (pos t) = if leb t now then now - t else t - now
distance now (negsuc t) = now + suc t

-- `not x` of a string that may be missing.
abbrev pub is_unset : Option String → Bool
is_unset none = true
is_unset (some s) = str_eq s ""

abbrev or_false : Option Bool → Bool
or_false none = false
or_false (some b) = b

module _ (crypto : Crypto) where
  -- The check of the signature, where the timestamp is a number; a body that is no UTF-8 raises.
  abbrev signed : (secret timestamp signature : String) → (body : Option String) → Bool
  signed secret timestamp signature none = false
  signed secret timestamp signature (some body) = or_false (
      crypto.compare_digest ("v0=" <> crypto.hexdigest secret ("v0:" <> timestamp <> ":" <> body))
        signature)

  abbrev signed_in_time :
      (now : ℕ)
      → (request_time : Option ℤ) → (secret timestamp signature : String) → (body : Option String)
      → Bool
  signed_in_time now none secret timestamp signature body = false
  signed_in_time now (some t) secret timestamp signature body =
      if ltb 300 (distance now t) then false else signed secret timestamp signature body

  abbrev verified_with :
      (secret : Option String)
      → (now : ℕ) → (body : Option String) → (timestamp signature : String) → Bool
  verified_with none now body timestamp signature = false
  verified_with (some secret) now body timestamp signature =
      if str_eq secret ""
      then false
      else signed_in_time now (crypto.parse_int timestamp) secret timestamp signature body

  unfoldable pub verify_slack_signature :
      (secret : Option String)
      → (now : ℕ) → (body : Option String) → (timestamp signature : String) → Bool
  verify_slack_signature secret now body timestamp signature =
      verified_with secret now body timestamp signature

pub data SlackAnswer : Type 0 where
  unauthorized : SlackAnswer
  no_question : SlackAnswer
  in_channel : Text → SlackAnswer
  help : SlackAnswer
  unknown_command : String → SlackAnswer

-- The headers, the body and the fields of the form, with what stands for those that are missing.
pub record SlackRequest : Type 0 where
  pub timestamp : String
  pub signature : String
  pub body : Option String
  pub command : String
  pub text : Text
  pub user_id : String

-- What is said where the model router raises.
abbrev answer_or_sorry : Option Text → Text
answer_or_sorry none = codes "Sorry, I couldn't process your request right now. Please try again."
answer_or_sorry (some answer) = answer

module _ (crypto : Crypto) (asking : Asking) where
  -- A command with a signature that is accepted.
  unfoldable pub slack_command : SlackRequest → asking.World → SlackAnswer × asking.World
  unfolding strip
  slack_command r w =
      let text = strip r.text in
      let (answer, w') = asking.ask text ("slack_" <> r.user_id) w in
      if str_eq r.command "/ask"
      then if is_empty text
        then (no_question, w)
        else (in_channel (codes "🤖 *DevMentor AI:*\n" ++ answer_or_sorry answer), w')
      else if str_eq r.command "/devmentor"
      then (help, w)
      else (unknown_command r.command, w)

  unfoldable pub slack_webhook :
      (secret : Option String)
      → (now : ℕ) → SlackRequest
      → asking.World
      → SlackAnswer × asking.World
  unfolding verify_slack_signature slack_command
  slack_webhook secret now r w =
      if str_eq r.timestamp "" || str_eq r.signature ""
      then (unauthorized, w)
      else if not (verify_slack_signature crypto secret now r.body r.timestamp r.signature)
      then (unauthorized, w)
      else slack_command r w

  -- A signature is not accepted later than 300 seconds after the time that it signs.
  verify_slack_signature-stale :
      (secret : Option String) (now : ℕ) (r : SlackRequest) (t : ℤ)
      → crypto.parse_int r.timestamp ≡ some t
      → 300 < distance now t
      → verify_slack_signature crypto secret now r.body r.timestamp r.signature ≡ false
  unfolding verify_slack_signature
  verify_slack_signature-stale none now r t e old = refl
  verify_slack_signature-stale (some secret) now r t e old = rw e (ground (arith, old))

  -- A request that is replayed more than 300 seconds after its time is not authorized, whatever its
  -- signature, and no model is asked.
  pub slack_replay :
      (secret : Option String) (now : ℕ) (r : SlackRequest) (t : ℤ) (w : asking.World)
      → crypto.parse_int r.timestamp ≡ some t
      → 300 < distance now t
      → slack_webhook secret now r w ≡ (unauthorized, w)
  unfolding slack_webhook
  slack_replay secret now r t w e old =
      let refused = verify_slack_signature-stale secret now r t e old in
      elim (Bool-cases (str_eq r.timestamp "" || str_eq r.signature "")) [
        | inl missing ↦ rw missing
        | inr given ↦ rw (given, refused)
      ]
