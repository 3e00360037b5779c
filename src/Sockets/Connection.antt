-- ===== src/Sockets/Connection.antt =====
-- websocket_handler.py: `ws_auth_required`. The claims of a token are those of auth_middleware.py, and
-- so are the table of users and the session.
use ai_chat_bot_v.Base.{ℕ, not, Option, none, some, [], ◌∷◌, String, drop, str_eq, if◌then◌else◌}
use ai_chat_bot_v.Base.Text.{Text, codes, starts_with}
use ai_chat_bot_v.Blacklist.Store.{TokenStore}
use ai_chat_bot_v.Auth.{User, is_locked, Payload, Libraries}
use ai_chat_bot_v.Auth.Resolve.{first_of, update_first, has_id, decode_access_token}
use ai_chat_bot_v.Sockets.{Handshake, EventData, no_data, fields, Server}

-- Who is let in, or the code of the error.
pub data Entry : Type 0 where
  let_in : (user_id : String) → Entry
  kept_out : (code : String) → Entry

-- `auth_header[7:]` where the header begins with `Bearer `, and no token otherwise.
abbrev pub bearer_of : Text → Text
bearer_of header = if starts_with (codes "Bearer ") header then drop 7 header else []

abbrev pub token_in : EventData → Text
token_in no_data = []
token_in (fields token room thread_id) = token

-- The first of three tokens that is not empty: of the query, of the header and of the data.
abbrev pub first_token : Text → Text → Text → Text
first_token (c ∷ t) header given = c ∷ t
first_token [] (c ∷ t) given = c ∷ t
first_token [] [] given = given

abbrev pub token_of : Handshake → EventData → Text
token_of h d = first_token h.query_token (bearer_of h.authorization) (token_in d)

module _ (libraries : Libraries) (store : TokenStore) (now : ℕ) where
  abbrev pub Entered : Type 0
  Entered = Entry × Server store

  abbrev pub seen : String → Server store → Server store
  seen id s = record s {
    context = record s.context {
      users = update_first (has_id id) (λ u. record u { last_active = now }) s.context.users;
    };
  }

  abbrev pub by_user : Option User → String → Server store → Entered
  by_user none id s = (kept_out "USER_NOT_FOUND", s)
  by_user (some u) id s =
      if not u.is_active
      then (kept_out "ACCOUNT_INACTIVE", s)
      else if is_locked now u
      then (kept_out "ACCOUNT_LOCKED", s)
      else (let_in u.id, seen id s)

  abbrev pub by_payload : Option Payload → Server store → Entered
  by_payload none s = (kept_out "TOKEN_INVALID", s)
  by_payload (some p) s =
      if str_eq p.sub ""
      then (kept_out "TOKEN_INVALID", s)
      else if s.database_fails
      then (kept_out "AUTH_ERROR", s)
      else by_user (first_of (has_id p.sub) s.context.users) p.sub s

  -- The session is taken at its word.
  abbrev pub by_session : Option String → Server store → Entered
  by_session none s = (kept_out "AUTH_REQUIRED", s)
  by_session (some id) s = if str_eq id "" then (kept_out "AUTH_REQUIRED", s) else (let_in id, s)

  abbrev pub by_text : Text → Server store → Entered
  by_text [] s = by_session s.context.session s
  by_text (c ∷ t) s =
      let (claims, revocations') =
        decode_access_token libraries store now (c ∷ t) s.context.revocations in
      by_payload claims (record s { context = record s.context { revocations = revocations' } })

  -- `ws_auth_required`: `data` is the first argument of the handler.
  unfoldable pub ws_auth_required : Handshake → EventData → Server store → Entered
  unfolding decode_access_token is_locked
  ws_auth_required h d s = by_text (token_of h d) s
