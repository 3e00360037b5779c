-- ===== src/Auth/Resolve.antt =====
-- auth_middleware.py, `decode_access_token` and `_resolve_user_from_request`.
pub mod Revoked
pub mod Keys
use ai_chat_bot_v.Base.{
  ℕ, Bool, true, false, not, ◌&&◌, ◌||◌, Option, none, some, List, [], ◌∷◌, String, str_eq, ltb,
  length, if◌then◌else◌,
}
use ai_chat_bot_v.Base.Text.{Text, codes}
use ai_chat_bot_v.Auth.{
  User, ApiKey, is_locked, is_expired, record_use, Payload, Libraries, Request,
  extract_bearer_token, Failure, no_credentials, invalid_or_expired_jwt, missing_sub_claim,
  user_not_found, account_inactive, account_locked, session_user_not_found, api_key_too_short,
  api_key_not_found, api_key_expired, api_key_hash_mismatch, api_key_user_inactive,
}
use ai_chat_bot_v.Blacklist.{State as Revocations, is_blacklisted}
use ai_chat_bot_v.Blacklist.Store.{TokenStore}

-- The tables, the session of the browser, and the scopes that the request context has.
pub record Context (store : TokenStore) : Type 0 where
  pub users : List User
  pub keys : List ApiKey
  pub session : Option String
  pub api_key_scopes : Option (List String)
  pub revocations : Revocations store

-- A user, or why there is none.
pub data Resolution : Type 0 where
  resolved : User → Resolution
  refused : Failure → Resolution

-- The first row that passes a filter.
abbrev pub first_of {ℓ} : {A : Type ℓ} → (A → Bool) → List A → Option A
first_of p [] = none
first_of p (x ∷ xs) = if p x then some x else first_of p xs

-- The first row that passes a filter, changed.
abbrev pub update_first {ℓ} : {A : Type ℓ} → (A → Bool) → (A → A) → List A → List A
update_first p f [] = []
update_first p f (x ∷ xs) = if p x then f x ∷ xs else x ∷ update_first p f xs

abbrev pub has_id : String → User → Bool
has_id id u = str_eq u.id id && not u.is_deleted

abbrev pub has_hash : String → ApiKey → Bool
has_hash hash k = str_eq k.key_hash hash && (not k.is_deleted && k.is_active)

-- What is made of an exception.
abbrev pub or_false : Option Bool → Bool
or_false none = false
or_false (some b) = b

module _ (libraries : Libraries) (store : TokenStore) (now : ℕ) where
  abbrev pub Resolved : Type 0
  Resolved = Resolution × Context store

  -- The claims of a token that is an access token and not revoked.
  abbrev pub checked_claims :
      Option Payload → Revocations store → Option Payload × Revocations store
  checked_claims none st = (none, st)
  checked_claims (some p) st =
      let (revoked, st') = is_blacklisted store p.jti st in
      if not (str_eq p.token_type "access")
      then (none, st)
      else (if revoked then none else some p, st')

  unfoldable pub decode_access_token : Text → Revocations store → Option Payload × Revocations store
  unfolding is_blacklisted
  decode_access_token token st = checked_claims (libraries.decode token) st

  abbrev seen : User → User
  seen u = record u { last_active = now }

  abbrev touched : String → Context store → Context store
  touched id c = record c { users = update_first (has_id id) seen c.users }

  -- The user of a token.
  abbrev pub token_user : Option User → String → Context store → Resolved
  token_user none id c = (refused user_not_found, c)
  token_user (some u) id c =
      if not u.is_active
      then (refused account_inactive, c)
      else if is_locked now u
      then (refused account_locked, c)
      else (resolved (seen u), touched id c)

  abbrev pub by_claims : Option Payload → Context store → Resolved
  by_claims none c = (refused invalid_or_expired_jwt, c)
  by_claims (some p) c =
      if str_eq p.sub ""
      then (refused missing_sub_claim, c)
      else token_user (first_of (has_id p.sub) c.users) p.sub c

  unfoldable pub by_token : Text → Context store → Resolved
  unfolding decode_access_token is_locked
  by_token token c =
      let (claims, revocations') = decode_access_token token c.revocations in
      by_claims claims (record c { revocations = revocations' })

  -- The user of a session; a session of nobody is cleared.
  abbrev pub session_user : Option User → String → Context store → Resolved
  session_user none id c = (refused session_user_not_found, record c { session = none })
  session_user (some u) id c =
      if not u.is_active
      then (refused account_inactive, record c { session = none })
      else if is_locked now u
      then (refused account_locked, c)
      else (resolved (seen u), touched id c)

  -- The user of an API key; whether the account is locked is not asked.
  abbrev pub key_user : Option User → ApiKey → (hash : String) → Context store → Resolved
  key_user none k hash c = (refused api_key_user_inactive, c)
  key_user (some u) k hash c = if not u.is_active then (refused api_key_user_inactive, c) else (
    resolved u,
    record c {
      keys = update_first (has_hash hash) (record_use now) c.keys;
      api_key_scopes = some k.scopes;
    },
  )

  -- `verify_api_key_value`
  abbrev pub verify_api_key_value : (key hash : String) → Bool
  verify_api_key_value key hash = or_false (libraries.checkpw key hash)

  abbrev pub by_record : Option ApiKey → (key : String) → Context store → Resolved
  by_record none key c = (refused api_key_not_found, c)
  by_record (some k) key c =
      if is_expired now k
      then (refused api_key_expired, c)
      else if not (verify_api_key_value key k.key_hash)
      then (refused api_key_hash_mismatch, c)
      else key_user (first_of (has_id k.user_id) c.users) k (libraries.sha256 key) c

  unfoldable pub by_key : (key : String) → Context store → Resolved
  unfolding is_expired record_use
  by_key key c =
      if ltb (length (codes key)) 32
      then (refused api_key_too_short, c)
      else by_record (first_of (has_hash (libraries.sha256 key)) c.keys) key c

  abbrev pub by_key_header : Option String → Context store → Resolved
  by_key_header none c = (refused no_credentials, c)
  by_key_header (some key) c = if str_eq key "" then (refused no_credentials, c) else by_key key c

  abbrev pub by_session : Option String → Option String → Context store → Resolved
  by_session none header c = by_key_header header c
  by_session (some id) header c =
      if str_eq id ""
      then by_key_header header c
      else session_user (first_of (has_id id) c.users) id c

  abbrev pub by_bearer : Option Text → Option String → Context store → Resolved
  by_bearer none header c = by_session c.session header c
  by_bearer (some token) header c = by_token token c

  -- A token, then a session, then an API key.
  unfoldable pub resolve_user_from_request : Request → Context store → Resolved
  unfolding extract_bearer_token by_token by_key
  resolve_user_from_request r c =
      by_bearer (extract_bearer_token libraries.lower r.authorization) r.api_key c
