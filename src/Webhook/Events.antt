-- ===== src/Webhook/Events.antt =====
-- webhook_handler.py, `_is_event_processed`: an event is marked before it is handled.
use Prim.Native.String.{◌++◌}
use ai_chat_bot_v.Base.{Bool, true, false, not, some, String}
use ai_chat_bot_v.Base.Int.{pos}
use ai_chat_bot_v.RedisClient.{Returned, ret, raised, Client, set}
use ai_chat_bot_v.RedisClient.Server.{number, RedisServer}

abbrev pub event_key : (event_id prefix : String) → String
event_key event_id prefix = prefix ++ "_event:" ++ event_id

-- What is made of the answer of `set`.
abbrev pub already_there : Returned Bool → Bool
already_there (ret was_new) = not was_new
already_there raised = false

-- `has_redis` is whether redis_client.py can be imported; the client that `_get_redis` gives then is
-- never false.
unfoldable pub is_event_processed :
    (redis : RedisServer) (has_redis : Bool)
    → (event_id prefix : String) → Client redis
    → Bool × Client redis
is_event_processed redis has_redis event_id prefix c = elim has_redis [
  | false ↦ (false, c)
  | true ↦
      let (r, c') = set redis (event_key event_id prefix) (number (pos 1)) (some 86_400) true c in
      (already_there r, c')
]
