-- ===== src/Webhook/Chat/Generic.antt =====
-- webhook_handler.py, `generic_webhook`: it checks a signature and whether the event has been seen,
-- and does no more.
use Prim.Native.String.{◌++◌ as ◌<>◌}
use ai_chat_bot_v.Base.{Bool, true, false, Option, none, some, String, str_eq, if◌then◌else◌}
use ai_chat_bot_v.RedisClient.{Client}
use ai_chat_bot_v.RedisClient.Server.{RedisServer}
use ai_chat_bot_v.Webhook.Chat.{Crypto}
use ai_chat_bot_v.Webhook.Events.{is_event_processed}

-- The answers; a header that is not ASCII makes the comparison raise, which nothing catches.
pub data GenericAnswer : Type 0 where
  not_configured : GenericAnswer
  invalid_signature : GenericAnswer
  server_error : GenericAnswer
  already_processed : GenericAnswer
  received : GenericAnswer

pub record GenericRequest : Type 0 where
  pub signature : String
  pub payload : String
  pub event_id : String

module _ (crypto : Crypto) (redis : RedisServer) (has_redis : Bool) where
  -- An event whose signature is accepted.
  unfoldable pub receive_event : GenericRequest → Client redis → GenericAnswer × Client redis
  unfolding is_event_processed
  receive_event r c =
      let (seen, c') = is_event_processed redis has_redis r.event_id "generic" c in
      if str_eq r.event_id ""
      then (received, c)
      else (if seen then already_processed else received, c')

  abbrev checked : Option Bool → GenericRequest → Client redis → GenericAnswer × Client redis
  checked none r c = (server_error, c)
  checked (some false) r c = (invalid_signature, c)
  checked (some true) r c = receive_event r c

  abbrev signed_with : Option String → GenericRequest → Client redis → GenericAnswer × Client redis
  signed_with none r c = (not_configured, c)
  signed_with (some secret) r c =
      if str_eq secret ""
      then (not_configured, c)
      else checked
          (crypto.compare_digest ("sha256=" <> crypto.hexdigest secret r.payload) r.signature) r c

  unfoldable pub generic_webhook :
      (secret : Option String) → GenericRequest → Client redis → GenericAnswer × Client redis
  unfolding receive_event
  generic_webhook secret r c = signed_with secret r c
