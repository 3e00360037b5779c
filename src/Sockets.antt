-- ===== src/Sockets.antt =====
-- websocket_handler.py: what a client sends and is sent, and the state of the server.
pub mod Streams
pub mod Connection
pub mod Handlers
pub mod Rooms
pub mod Idle
mod Examples
use ai_chat_bot_v.Base.{Bool, List, String}
use ai_chat_bot_v.Base.Text.{Text}
use ai_chat_bot_v.Base.Dict.{Dict}
use ai_chat_bot_v.Blacklist.Store.{TokenStore}
use ai_chat_bot_v.Auth.Resolve.{Context}

-- What a connection keeps of its handshake: the query parameter `token` (empty if there is none) and
-- the header `Authorization`. The session of the browser is in the context.
pub record Handshake : Type 0 where
  pub sid : String
  pub query_token : Text
  pub authorization : Text

-- A field of the data of an event: `strange` is a value that is no text.
pub data Field : Type 0 where
  absent : Field
  word : Text → Field
  strange : Field

-- The data of an event; `no_data` stands for no data and an empty dict. A client may send other JSON,
-- at which the handlers raise; that is left out.
pub data EventData : Type 0 where
  no_data : EventData
  fields : (token : Text) → (room thread_id : Field) → EventData

pub record Thread : Type 0 where
  pub id : Text
  pub user_id : String
  pub is_deleted : Bool

-- What is sent back: an error with its code, an acknowledgement, or nothing. `raised` is an exception
-- that leaves the handler.
pub data Sent : Type 0 where
  error : (code : String) → Sent
  connected : (user_id sid : String) → Sent
  joined : (room : Text) → Sent
  left : (room : Text) → Sent
  generation_stopped : Sent
  pong : Sent
  nothing : Sent
  raised : Sent

-- The members of the rooms, the streams that run (and whether they should stop), the table of threads
-- and what the authentication reads and writes; `database_fails` where a query raises.
pub record Server (store : TokenStore) : Type 0 where
  pub members : List (String × Text)
  pub streams : Dict Bool
  pub threads : List Thread
  pub context : Context store
  pub database_fails : Bool
