-- ===== src/Sockets/Examples.antt =====
-- websocket_handler.py at concrete inputs: every token is Ann's, and Bob owns the thread t2.
use ai_chat_bot_v.Base.{◌≡◌, refl, true, false, not, none, some, List, [], ◌∷◌}
use ai_chat_bot_v.Base.Text.{Text, codes, strip, is_space, same_text}
use ai_chat_bot_v.Base.Dict.{insert}
use ai_chat_bot_v.Blacklist.Sample.{memory}
use ai_chat_bot_v.Auth.{User, Libraries}
use ai_chat_bot_v.Auth.Resolve.{Context}
use ai_chat_bot_v.Sockets.{
  Handshake, word, EventData, fields, no_data, Thread, error, joined, Server,
}
use ai_chat_bot_v.Sockets.Streams.{
  register, stop, operate, operate_all, unknown, advance_all, phase_of, is_running, should_stop,
  should_stop-operate_all,
}
use ai_chat_bot_v.Sockets.Connection.{ws_auth_required}
use ai_chat_bot_v.Sockets.Handlers.{
  handle_join, handle_join_thread, connect, join, stop_generation, Event, handle_all,
}
use ai_chat_bot_v.Sockets.Rooms.{JoinsOwned, handle_join_thread-JoinsOwned, handle_join_enters}
use ai_chat_bot_v.Sockets.Idle.{should_stop-handle_all}

abbrev libraries : Libraries
libraries = record {
  decode = λ token. some (record { sub = "ann"; token_type = "access"; jti = "t1" });
  sha256 = λ key. key;
  checkpw = λ key hash. none;
  lower = λ t. t;
}

abbrev ann : User
ann = record {
  id = "ann";
  tier = "pro";
  is_admin = false;
  is_active = true;
  is_deleted = false;
  locked_until = none;
  last_active = 0;
}

abbrev context : Context memory
context = record {
  users = ann ∷ [];
  keys = [];
  session = none;
  api_key_scopes = none;
  revocations = record { connected = false; server = [] };
}

abbrev anns : Thread
anns = record { id = codes "t1"; user_id = "ann"; is_deleted = false }

abbrev bobs : Thread
bobs = record { id = codes "t2"; user_id = "bob"; is_deleted = false }

abbrev server : Server memory
server = record {
  members = [];
  streams = [];
  threads = anns ∷ bobs ∷ [];
  context = context;
  database_fails = false;
}

abbrev socket : Handshake
socket = record { sid = "s1"; query_token = codes "x"; authorization = [] }

abbrev asks : Text → EventData
asks room = fields [] (word room) (word room)

own_thread :
    (handle_join_thread libraries memory 5 socket (asks (codes " t1 ")) server).0
    ≡ joined (codes "t1")
unfolding handle_join_thread strip is_space same_text
own_thread = refl

handle_join_thread-JoinsOwned_example :
    JoinsOwned libraries memory 5 "s1" server
      (ws_auth_required libraries memory 5 socket (asks (codes "t1")) server).0
      (handle_join_thread libraries memory 5 socket (asks (codes "t1")) server)
handle_join_thread-JoinsOwned_example =
    handle_join_thread-JoinsOwned libraries memory 5 socket (asks (codes "t1")) server

handle_join_enters_example :
    ((handle_join_thread libraries memory 5 socket (asks (codes "t2")) server).0
      ≡ error "ACCESS_DENIED")
    × ((handle_join_thread libraries memory 5 socket (asks (codes "t2")) server).1.members ≡ [])
    × ((handle_join libraries memory 5 socket (asks (codes "t2")) server).0 ≡ joined (codes "t2"))
    × ((handle_join libraries memory 5 socket (asks (codes "t2")) server).1.members
        ≡ ("s1", codes "t2") ∷ [])
unfolding ws_auth_required strip is_space same_text
handle_join_enters_example =
    handle_join_enters libraries memory 5 socket [] (codes "t2") server "ann" b't' (codes "2") refl
      refl refl

should_stop-operate_all_example :
    should_stop "s1" (operate_all (register "s1" ∷ register "s2" ∷ stop "s2" ∷ []) [])
    ≡ not (
        is_running
          (advance_all "s1" (register "s1" ∷ register "s2" ∷ stop "s2" ∷ []) (phase_of "s1" [])))
should_stop-operate_all_example =
    should_stop-operate_all "s1" (register "s1" ∷ register "s2" ∷ stop "s2" ∷ []) []

still_running :
    should_stop "s1" (operate_all (register "s1" ∷ register "s2" ∷ stop "s2" ∷ []) []) ≡ false
unfolding operate_all should_stop insert operate
still_running = refl

abbrev visit : List Event
visit =
    connect socket no_data ∷ join socket (asks (codes "r")) ∷ stop_generation socket no_data ∷ []

should_stop-handle_all_example :
    (phase_of "s1" (handle_all libraries memory 5 visit server).streams ≡ unknown)
    × (should_stop "s1" server.streams ≡ true)
    × (should_stop "s1" (handle_all libraries memory 5 visit server).streams ≡ true)
should_stop-handle_all_example = should_stop-handle_all libraries memory 5 "s1" visit server refl
