-- ===== src/Sockets/Rooms.antt =====
-- websocket_handler.py: who comes into which room, and what events do to the registry of streams.
use ai_chat_bot_v.Base.{
  ℕ, ◌≡◌, ◌≢◌, ◌⊎◌, inl, inr, refl, sym, ap, ◌∙◌, Bool, true, false, Option, none, some, List, [],
  ◌∷◌, String, any, if◌then◌else◌, arith,
}
use ai_chat_bot_v.Base.Text.{Text, strip}
use ai_chat_bot_v.Blacklist.Store.{TokenStore}
use ai_chat_bot_v.Auth.{User, Payload, Libraries}
use ai_chat_bot_v.Auth.Resolve.{first_of, has_id, decode_access_token}
use ai_chat_bot_v.Sockets.{
  Handshake, Field, absent, word, strange, EventData, fields, Sent, error, joined, Server,
}
use ai_chat_bot_v.Sockets.Connection.{
  Entry, let_in, kept_out, token_of, by_user, by_payload, by_session, by_text, ws_auth_required,
}
use ai_chat_bot_v.Sockets.Handlers.{
  is_owned, thread_in, verify_thread_ownership, join_room, guarded_by, enter_thread,
  join_thread_field, join_field, handle_join, handle_join_thread,
}

module _ (libraries : Libraries) (store : TokenStore) (now : ℕ) where
  -- Who is let in is found without a change of the rooms, the streams or the threads.
  abbrev pub Keeps : Server store → Server store → Type 0
  Keeps s s' =
      (s'.members ≡ s.members)
      × (s'.streams ≡ s.streams)
      × (s'.threads ≡ s.threads)
      × (s'.database_fails ≡ s.database_fails)

  by_user-Keeps :
      (o : Option User) (id : String) (s : Server store)
      → Keeps s (by_user libraries store now o id s).1
  by_user-Keeps none id s = (refl, refl, refl, refl)
  by_user-Keeps (some u) id s = ground arith

  by_payload-Keeps :
      (o : Option Payload) (s : Server store) → Keeps s (by_payload libraries store now o s).1
  by_payload-Keeps none s = (refl, refl, refl, refl)
  by_payload-Keeps (some p) s =
      ground (arith, by_user-Keeps (first_of (has_id p.sub) s.context.users) p.sub s)

  by_session-Keeps :
      (o : Option String) (s : Server store) → Keeps s (by_session libraries store now o s).1
  by_session-Keeps none s = (refl, refl, refl, refl)
  by_session-Keeps (some id) s = ground arith

  by_text-Keeps : (t : Text) (s : Server store) → Keeps s (by_text libraries store now t s).1
  by_text-Keeps [] s = by_session-Keeps s.context.session s
  by_text-Keeps (c ∷ t) s =
      let (claims, revocations') =
        decode_access_token libraries store now (c ∷ t) s.context.revocations in
      by_payload-Keeps claims
        (record s { context = record s.context { revocations = revocations' } })

  pub ws_auth-Keeps :
      (h : Handshake) (d : EventData) (s : Server store)
      → Keeps s (ws_auth_required libraries store now h d s).1
  unfolding ws_auth_required
  ws_auth-Keeps h d s = by_text-Keeps (token_of h d) s

  -- The answer to `join_thread` and the rooms that it leaves: it acknowledges a room only to the owner
  -- of the thread of that name, and then the socket is its newest member; otherwise the rooms stay as
  -- they were.
  abbrev pub JoinsOwned :
      (sid : String) → (before : Server store) → Entry → Sent × Server store → Type 0
  JoinsOwned sid before entry r =
      ((user_id : String) × (room : Text) × (entry ≡ let_in user_id)
        × (r.0 ≡ joined room)
        × (any (is_owned room user_id) before.threads ≡ true)
        × (r.1.members ≡ (sid, room) ∷ before.members))
      ⊎ (((room : Text) → r.0 ≢ joined room) × (r.1.members ≡ before.members))

  error-ne-joined : (code : String) (room : Text) → error code ≢ joined room
  error-ne-joined code room e = cc

  owned_of :
      (t : Text) (user_id : String) (s : Server store)
      → verify_thread_ownership libraries store now t user_id s ≡ true
      → any (is_owned t user_id) s.threads ≡ true
  unfolding verify_thread_ownership
  owned_of t user_id s h = ground arith

  enter_at :
      (sid user_id : String) (t : Text) (s before : Server store) (b : Bool)
      → Keeps before s
      → verify_thread_ownership libraries store now t user_id s ≡ b
      → JoinsOwned sid before (let_in user_id) (
          if b
          then (joined t, join_room libraries store now sid t s)
          else (error "ACCESS_DENIED", s))
  enter_at sid user_id t s before true k e =
      inl (user_id, t, refl, refl, rw (sym k.2) (owned_of t user_id s e), rw k.0)
  enter_at sid user_id t s before false k e = inr (error-ne-joined "ACCESS_DENIED", k.0)

  enter-JoinsOwned :
      (sid user_id : String) (t : Text) (s before : Server store)
      → Keeps before s
      → JoinsOwned sid before (let_in user_id) (enter_thread libraries store now sid user_id t s)
  enter-JoinsOwned sid user_id [] s before k = inr (error-ne-joined "MISSING_FIELD", k.0)
  enter-JoinsOwned sid user_id (c ∷ t) s before k =
      enter_at sid user_id (c ∷ t) s before
        (verify_thread_ownership libraries store now (c ∷ t) user_id s) k refl

  field-JoinsOwned :
      (sid user_id : String) (f : Field) (s before : Server store)
      → Keeps before s
      → JoinsOwned sid before
          (let_in user_id)
          (join_thread_field libraries store now sid user_id f s)
  field-JoinsOwned sid user_id absent s before k = inr (error-ne-joined "MISSING_FIELD", k.0)
  field-JoinsOwned sid user_id (word t) s before k =
      enter-JoinsOwned sid user_id (strip t) s before k
  field-JoinsOwned sid user_id strange s before k = inr ((λ room e. cc), k.0)

  guard-JoinsOwned :
      (sid : String) (f : Field) (before : Server store) (r : Entry × Server store)
      → Keeps before r.1
      → JoinsOwned sid before r.0 (
          guarded_by libraries store now
            (λ user_id. join_thread_field libraries store now sid user_id f)
            r)
  guard-JoinsOwned sid f before (let_in user_id, s) k = field-JoinsOwned sid user_id f s before k
  guard-JoinsOwned sid f before (kept_out code, s) k = inr (error-ne-joined code, k.0)

  -- A client comes into the room of a thread by `join_thread` only as the thread's owner, whatever it
  -- sends: either the decorator let in a user who owns a thread of the room's name that is not deleted,
  -- the room is acknowledged and the socket is its newest member, or no room is acknowledged and the
  -- rooms stay as they were.
  pub handle_join_thread-JoinsOwned :
      (h : Handshake) (d : EventData) (s : Server store)
      → JoinsOwned h.sid s
          (ws_auth_required libraries store now h d s).0
          (handle_join_thread libraries store now h d s)
  unfolding handle_join_thread
  handle_join_thread-JoinsOwned h d s =
      guard-JoinsOwned h.sid (thread_in d) s (ws_auth_required libraries store now h d s)
        (ws_auth-Keeps h d s)

  module _ (h : Handshake) (token room : Text) (s : Server store) (user_id : String) (c : ℕ)
      (t : Text)
      (entered : (ws_auth_required libraries store now h (fields token (word room) (word room)) s).0
        ≡ let_in user_id)
      (named : strip room ≡ c ∷ t)
      (foreign : any (is_owned (c ∷ t) user_id) s.threads ≡ false) where
    abbrev sent : EventData
    sent = fields token (word room) (word room)

    abbrev entry : Entry × Server store
    entry = ws_auth_required libraries store now h sent s

    denied :
        (u : String) (s' : Server store)
        → u ≡ user_id
        → Keeps s s'
        → enter_thread libraries store now h.sid u (c ∷ t) s' ≡ (error "ACCESS_DENIED", s')
    unfolding verify_thread_ownership
    denied u s' f k =
        let other : any (is_owned (c ∷ t) u) s'.threads ≡ false = rw (f, k.2) foreign in
        ground (arith, other)

    refused_at :
        (r : Entry × Server store)
        → r.0 ≡ let_in user_id
        → Keeps s r.1
        → guarded_by libraries store now
            (λ u. join_thread_field libraries store now h.sid u (word room))
            r
          ≡ (error "ACCESS_DENIED", r.1)
    refused_at (let_in u, s') e k = rw (named) (denied u s' (cc) k)
    refused_at (kept_out code, s') e k = absurd (cc)

    joined_at :
        (r : Entry × Server store)
        → r.0 ≡ let_in user_id
        → guarded_by libraries store now (λ u. join_field libraries store now h.sid (word room)) r
          ≡ (joined (c ∷ t), join_room libraries store now h.sid (c ∷ t) r.1)
    joined_at (let_in u, s') e = rw named
    joined_at (kept_out code, s') e = absurd (cc)

    -- `join` asks for no ownership: a client whom `join_thread` keeps out of the room of a thread, since
    -- no thread of that name is its user's, comes into the very same room by the event `join`.
    pub handle_join_enters :
        ((handle_join_thread libraries store now h sent s).0 ≡ error "ACCESS_DENIED")
        × ((handle_join_thread libraries store now h sent s).1.members ≡ s.members)
        × ((handle_join libraries store now h sent s).0 ≡ joined (c ∷ t))
        × ((handle_join libraries store now h sent s).1.members ≡ (h.sid, c ∷ t) ∷ s.members)
    unfolding handle_join handle_join_thread
    handle_join_enters =
        let kept = ws_auth-Keeps h sent s in
        let no_thread = refused_at entry entered kept in
        let a_room = joined_at entry entered in
        (
          ap (λ (r : Sent × Server store). r.0) no_thread,
          ap (λ (r : Sent × Server store). r.1.members) no_thread ∙ kept.0,
          ap (λ (r : Sent × Server store). r.0) a_room,
          ap (λ (r : Sent × Server store). r.1.members) a_room
              ∙ ap (λ (m : List (String × Text)). (h.sid, c ∷ t) ∷ m) kept.0,
        )
