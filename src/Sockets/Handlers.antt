-- ===== src/Sockets/Handlers.antt =====
-- websocket_handler.py: `_verify_thread_ownership` and the handlers of the events.
use ai_chat_bot_v.Base.{
  ℕ, Bool, false, not, ◌&&◌, List, [], ◌∷◌, String, str_eq, any, filter, if◌then◌else◌,
}
use ai_chat_bot_v.Base.Text.{Text, strip, same_text}
use ai_chat_bot_v.Blacklist.Store.{TokenStore}
use ai_chat_bot_v.Auth.{Libraries}
use ai_chat_bot_v.Sockets.{
  Handshake, Field, absent, word, strange, EventData, no_data, fields, Thread, Sent, error,
  connected, joined, left, generation_stopped, pong, nothing, raised, Server,
}
use ai_chat_bot_v.Sockets.Streams.{request_stop, unregister_stream}
use ai_chat_bot_v.Sockets.Connection.{Entry, let_in, kept_out, ws_auth_required}

abbrev pub is_owned : (thread_id : Text) → (user_id : String) → Thread → Bool
is_owned thread_id user_id t =
    same_text t.id thread_id && (str_eq t.user_id user_id && not t.is_deleted)

abbrev pub room_in : EventData → Field
room_in no_data = absent
room_in (fields token room thread_id) = room

abbrev pub thread_in : EventData → Field
thread_in no_data = absent
thread_in (fields token room thread_id) = thread_id

-- The events that clients send, each on its connection.
pub data Event : Type 0 where
  connect : Handshake → EventData → Event
  disconnect : Handshake → Event
  ping : Event
  join : Handshake → EventData → Event
  leave : Handshake → EventData → Event
  join_thread : Handshake → EventData → Event
  leave_thread : Handshake → EventData → Event
  stop_generation : Handshake → EventData → Event

module _ (libraries : Libraries) (store : TokenStore) (now : ℕ) where
  unfoldable pub verify_thread_ownership : Text → (user_id : String) → Server store → Bool
  verify_thread_ownership thread_id user_id s =
      if s.database_fails then false else any (is_owned thread_id user_id) s.threads

  -- `join_room` and `leave_room` for the socket of the event.
  abbrev pub join_room : (sid : String) → Text → Server store → Server store
  join_room sid room s = record s { members = (sid, room) ∷ s.members }

  abbrev pub is_member : String → Text → String × Text → Bool
  is_member sid room m = str_eq m.0 sid && same_text m.1 room

  abbrev pub leave_room : (sid : String) → Text → Server store → Server store
  leave_room sid room s = record s { members = filter (λ m. not (is_member sid room m)) s.members }

  -- A handler that is decorated runs for whom the decorator lets in.
  abbrev pub guarded_by :
      (String → Server store → Sent × Server store) → Entry × Server store → Sent × Server store
  guarded_by handler (let_in user_id, s) = handler user_id s
  guarded_by handler (kept_out code, s) = (error code, s)

  abbrev pub guard :
      Handshake
      → EventData
      → (String → Server store → Sent × Server store)
      → Server store
      → Sent × Server store
  guard h d handler s = guarded_by handler (ws_auth_required libraries store now h d s)

  unfoldable pub handle_connect : Handshake → EventData → Server store → Sent × Server store
  unfolding ws_auth_required
  handle_connect h auth = guard h auth (λ user_id s. (connected user_id h.sid, s))

  unfoldable pub handle_disconnect : Handshake → Server store → Sent × Server store
  handle_disconnect h s =
      (nothing, record s { streams = unregister_stream h.sid (request_stop h.sid s.streams) })

  -- The client's `leave_room` of the library at the end of a connection is not part of the handler.
  unfoldable pub handle_ping : Server store → Sent × Server store
  handle_ping s = (pong, s)

  abbrev pub enter : (sid : String) → Text → Server store → Sent × Server store
  enter sid [] s = (error "MISSING_FIELD", s)
  enter sid (c ∷ t) s = (joined (c ∷ t), join_room sid (c ∷ t) s)

  abbrev pub join_field : (sid : String) → Field → Server store → Sent × Server store
  join_field sid absent s = (error "MISSING_FIELD", s)
  join_field sid (word t) s = enter sid (strip t) s
  join_field sid strange s = (raised, s)

  unfoldable pub handle_join : Handshake → EventData → Server store → Sent × Server store
  unfolding ws_auth_required
  handle_join h d = guard h d (λ user_id. join_field h.sid (room_in d))

  abbrev pub go_out : (sid : String) → Text → Server store → Sent × Server store
  go_out sid [] s = (nothing, s)
  go_out sid (c ∷ t) s = (left (c ∷ t), leave_room sid (c ∷ t) s)

  abbrev pub leave_field : (sid : String) → Field → Server store → Sent × Server store
  leave_field sid absent s = (nothing, s)
  leave_field sid (word t) s = go_out sid (strip t) s
  leave_field sid strange s = (raised, s)

  unfoldable pub handle_leave : Handshake → EventData → Server store → Sent × Server store
  unfolding ws_auth_required
  handle_leave h d = guard h d (λ user_id. leave_field h.sid (room_in d))

  abbrev pub enter_thread : (sid user_id : String) → Text → Server store → Sent × Server store
  enter_thread sid user_id [] s = (error "MISSING_FIELD", s)
  enter_thread sid user_id (c ∷ t) s =
      if verify_thread_ownership (c ∷ t) user_id s
      then (joined (c ∷ t), join_room sid (c ∷ t) s)
      else (error "ACCESS_DENIED", s)

  abbrev pub join_thread_field : (sid user_id : String) → Field → Server store → Sent × Server store
  join_thread_field sid user_id absent s = (error "MISSING_FIELD", s)
  join_thread_field sid user_id (word t) s = enter_thread sid user_id (strip t) s
  join_thread_field sid user_id strange s = (raised, s)

  unfoldable pub handle_join_thread : Handshake → EventData → Server store → Sent × Server store
  unfolding ws_auth_required verify_thread_ownership
  handle_join_thread h d = guard h d (λ user_id. join_thread_field h.sid user_id (thread_in d))

  unfoldable pub handle_leave_thread : Handshake → EventData → Server store → Sent × Server store
  unfolding ws_auth_required
  handle_leave_thread h d = guard h d (λ user_id. leave_field h.sid (thread_in d))

  unfoldable pub handle_stop_generation : Handshake → EventData → Server store → Sent × Server store
  unfolding ws_auth_required
  handle_stop_generation h d =
      guard h d
        (λ user_id s. (generation_stopped, record s { streams = request_stop h.sid s.streams }))

  abbrev pub handle : Event → Server store → Sent × Server store
  handle (connect h d) s = handle_connect h d s
  handle (disconnect h) s = handle_disconnect h s
  handle ping s = handle_ping s
  handle (join h d) s = handle_join h d s
  handle (leave h d) s = handle_leave h d s
  handle (join_thread h d) s = handle_join_thread h d s
  handle (leave_thread h d) s = handle_leave_thread h d s
  handle (stop_generation h d) s = handle_stop_generation h d s

  unfoldable pub handle_all : List Event → Server store → Server store
  handle_all [] s = s
  handle_all (e ∷ es) s = handle_all es (handle e s).1
