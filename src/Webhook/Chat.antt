-- ===== src/Webhook/Chat.antt =====
-- webhook_handler.py: the endpoints of Slack and Discord, and the one of generic webhooks. The
-- checks of signatures that libraries do, the reading of numbers and the model router are parameters.
pub mod Slack
pub mod Discord
pub mod Generic
use ai_chat_bot_v.Base.{ℕ, Bool, true, false, Option, none, some, String}
use ai_chat_bot_v.Base.Int.{ℤ}
use ai_chat_bot_v.Base.Text.{Text}

-- `int` of a string, or that it raises; the hexadecimal HMAC-SHA256 of a message; and
-- `hmac.compare_digest`, which raises for texts that are not ASCII.
pub record Crypto : Type 0 where
  pub parse_int : String → Option ℤ
  pub hexdigest : (key message : String) → String
  pub compare_digest : String → String → Option Bool
  -- Whether a key of Discord verifies a body with its timestamp, or that the library raises.
  pub verify_key : (key body signature timestamp : String) → Option Bool

-- What a call of the model router gives, or that it raises.
pub record Asking : Type 1 where
  pub World : Type 0
  pub ask : (prompt : Text) (user_id : String) → World → Option Text × World
