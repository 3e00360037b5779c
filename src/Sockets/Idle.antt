-- ===== src/Sockets/Idle.antt =====
-- websocket_handler.py: what the events of clients do to the registry of streams. No handler registers
-- a stream, and nothing else of the program does.
use ai_chat_bot_v.Base.{
  ℕ, ◌≡◌, refl, ap, ◌∙◌, Bool, true, false, not, List, [], ◌∷◌, String, str_eq, arith,
}
use ai_chat_bot_v.Base.Text.{Text, strip}
use ai_chat_bot_v.Base.Dict.{Dict, lookup}
use ai_chat_bot_v.Blacklist.Store.{TokenStore}
use ai_chat_bot_v.Auth.{Libraries}
use ai_chat_bot_v.Sockets.{
  Handshake, Field, absent, word, strange, EventData, Sent, connected, generation_stopped, Server,
}
use ai_chat_bot_v.Sockets.Streams.{
  unregister, stop, operate, request_stop, unregister_stream, Phase, unknown, advance, phase_of,
  is_running, should_stop, phase_of-operate, running_at,
}
use ai_chat_bot_v.Sockets.Connection.{Entry, let_in, kept_out, ws_auth_required}
use ai_chat_bot_v.Sockets.Handlers.{
  room_in, thread_in, guarded_by, enter, join_field, go_out, leave_field, enter_thread,
  join_thread_field, handle_connect, handle_disconnect, handle_ping, handle_join, handle_leave,
  handle_join_thread, handle_leave_thread, handle_stop_generation, Event, connect, disconnect, ping,
  join, leave, join_thread, leave_thread, stop_generation, handle, handle_all,
}
use ai_chat_bot_v.Sockets.Rooms.{ws_auth-Keeps}

idle_advance : (b : Bool) (k : String) → advance b (stop k) unknown ≡ unknown
idle_advance true k = refl
idle_advance false k = refl

idle_stop :
    (sid k : String) (streams : Dict Bool)
    → phase_of sid streams ≡ unknown
    → phase_of sid (request_stop k streams) ≡ unknown
unfolding operate
idle_stop sid k streams e =
    phase_of-operate sid (stop k) streams
    ∙ ap (advance (str_eq sid k) (stop k)) e
    ∙ idle_advance (str_eq sid k) k

idle_away : (b : Bool) (k : String) → advance b (unregister k) unknown ≡ unknown
idle_away true k = refl
idle_away false k = refl

idle_unregister :
    (sid k : String) (streams : Dict Bool)
    → phase_of sid streams ≡ unknown
    → phase_of sid (unregister_stream k streams) ≡ unknown
unfolding operate
idle_unregister sid k streams e =
    phase_of-operate sid (unregister k) streams
    ∙ ap (advance (str_eq sid k) (unregister k)) e
    ∙ idle_away (str_eq sid k) k

module _ (libraries : Libraries) (store : TokenStore) (now : ℕ) (sid : String) where
  abbrev IsIdle : Server store → Type 0
  IsIdle s = phase_of sid s.streams ≡ unknown

  guarded-IsIdle :
      (handler : String → Server store → Sent × Server store)
      → ((u : String) (s : Server store) → IsIdle s → IsIdle (handler u s).1)
      → (r : Entry × Server store) → IsIdle r.1
      → IsIdle (guarded_by libraries store now handler r).1
  guarded-IsIdle handler keep (let_in u, s) e = keep u s e
  guarded-IsIdle handler keep (kept_out code, s) e = e

  entered-IsIdle :
      (h : Handshake) (d : EventData) (s : Server store)
      → IsIdle s
      → IsIdle (ws_auth_required libraries store now h d s).1
  entered-IsIdle h d s e = ap (phase_of sid) (ws_auth-Keeps libraries store now h d s).1 ∙ e

  enter-IsIdle :
      (k : String) (t : Text) (s : Server store)
      → IsIdle s
      → IsIdle (enter libraries store now k t s).1
  enter-IsIdle k [] s e = e
  enter-IsIdle k (c ∷ t) s e = e

  join-IsIdle :
      (k : String) (f : Field) (s : Server store)
      → IsIdle s
      → IsIdle (join_field libraries store now k f s).1
  join-IsIdle k absent s e = e
  join-IsIdle k (word t) s e = enter-IsIdle k (strip t) s e
  join-IsIdle k strange s e = e

  go_out-IsIdle :
      (k : String) (t : Text) (s : Server store)
      → IsIdle s
      → IsIdle (go_out libraries store now k t s).1
  go_out-IsIdle k [] s e = e
  go_out-IsIdle k (c ∷ t) s e = e

  leave-IsIdle :
      (k : String) (f : Field) (s : Server store)
      → IsIdle s
      → IsIdle (leave_field libraries store now k f s).1
  leave-IsIdle k absent s e = e
  leave-IsIdle k (word t) s e = go_out-IsIdle k (strip t) s e
  leave-IsIdle k strange s e = e

  enter_thread-IsIdle :
      (k u : String) (t : Text) (s : Server store)
      → IsIdle s
      → IsIdle (enter_thread libraries store now k u t s).1
  enter_thread-IsIdle k u [] s e = e
  enter_thread-IsIdle k u (c ∷ t) s e = ground (arith, e)

  join_thread-IsIdle :
      (k u : String) (f : Field) (s : Server store)
      → IsIdle s
      → IsIdle (join_thread_field libraries store now k u f s).1
  join_thread-IsIdle k u absent s e = e
  join_thread-IsIdle k u (word t) s e = enter_thread-IsIdle k u (strip t) s e
  join_thread-IsIdle k u strange s e = e

  handle-IsIdle :
      (v : Event) (s : Server store) → IsIdle s → IsIdle (handle libraries store now v s).1
  unfolding handle_connect handle_disconnect handle_ping handle_join handle_leave handle_join_thread
      handle_leave_thread handle_stop_generation
  handle-IsIdle (connect h d) s e =
      guarded-IsIdle (λ u t. (connected u h.sid, t)) (λ u t f. f)
        (ws_auth_required libraries store now h d s) (entered-IsIdle h d s e)
  handle-IsIdle (disconnect h) s e =
      idle_unregister sid h.sid (request_stop h.sid s.streams) (idle_stop sid h.sid s.streams e)
  handle-IsIdle ping s e = e
  handle-IsIdle (join h d) s e =
      guarded-IsIdle (λ u. join_field libraries store now h.sid (room_in d))
        (λ u. join-IsIdle h.sid (room_in d)) (ws_auth_required libraries store now h d s)
        (entered-IsIdle h d s e)
  handle-IsIdle (leave h d) s e =
      guarded-IsIdle (λ u. leave_field libraries store now h.sid (room_in d))
        (λ u. leave-IsIdle h.sid (room_in d)) (ws_auth_required libraries store now h d s)
        (entered-IsIdle h d s e)
  handle-IsIdle (join_thread h d) s e =
      guarded-IsIdle (λ u. join_thread_field libraries store now h.sid u (thread_in d))
        (λ u. join_thread-IsIdle h.sid u (thread_in d)) (ws_auth_required libraries store now h d s)
        (entered-IsIdle h d s e)
  handle-IsIdle (leave_thread h d) s e =
      guarded-IsIdle (λ u. leave_field libraries store now h.sid (thread_in d))
        (λ u. leave-IsIdle h.sid (thread_in d)) (ws_auth_required libraries store now h d s)
        (entered-IsIdle h d s e)
  handle-IsIdle (stop_generation h d) s e =
      guarded-IsIdle
        (λ u t. (generation_stopped, record t { streams = request_stop h.sid t.streams }))
        (λ u t f. idle_stop sid h.sid t.streams f) (ws_auth_required libraries store now h d s)
        (entered-IsIdle h d s e)

  run-IsIdle :
      (es : List Event) (s : Server store) → IsIdle s → IsIdle (handle_all libraries store now es s)
  unfolding handle_all
  run-IsIdle [] s e = e
  run-IsIdle (v ∷ es) s e = run-IsIdle es (handle libraries store now v s).1 (handle-IsIdle v s e)

  -- Whatever events clients send, and in whatever order, a stream that is not registered stays so, and
  -- is told to stop before as after: no request to stop a generation makes a difference to it.
  pub should_stop-handle_all :
      (es : List Event) (s : Server store)
      → phase_of sid s.streams ≡ unknown
      → (phase_of sid (handle_all libraries store now es s).streams ≡ unknown)
        × (should_stop sid s.streams ≡ true)
        × (should_stop sid (handle_all libraries store now es s).streams ≡ true)
  should_stop-handle_all es s e =
      let later = run-IsIdle es s e in
      let streams' = (handle_all libraries store now es s).streams in
      (
        later,
        running_at sid s.streams (lookup sid s.streams) refl
            ∙ ap (λ (p : Phase). not (is_running p)) e,
        running_at sid streams' (lookup sid streams') refl
            ∙ ap (λ (p : Phase). not (is_running p)) later,
      )
