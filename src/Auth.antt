-- ===== src/Auth.antt =====
-- auth_middleware.py: who a request comes from, by a token, a session or an API key, and the
-- decorators that ask for it. The decoding of tokens, the hashes and `str.lower` are parameters.
pub mod Resolve
pub mod Guards
pub mod Session
pub mod Tokens
mod Examples
use ai_chat_bot_v.Base.{
  ℕ, ◌+◌, Bool, true, false, not, ◌&&◌, Option, none, some, List, [], ◌∷◌, String, str_eq, ltb,
  if◌then◌else◌,
}
use ai_chat_bot_v.Base.Text.{Text, codes, lstrip, strip, is_space, is_empty, same_text}

-- What is read and written of a user and of an API key; the scopes are those that `get_scopes` reads.
pub record User : Type 0 where
  pub id : String
  pub tier : String
  pub is_admin : Bool
  pub is_active : Bool
  pub is_deleted : Bool
  pub locked_until : Option ℕ
  pub last_active : ℕ

pub record ApiKey : Type 0 where
  pub user_id : String
  pub key_hash : String
  pub is_active : Bool
  pub is_deleted : Bool
  pub expires_at : Option ℕ
  pub scopes : List String
  pub last_used : ℕ
  pub use_count : ℕ

unfoldable pub is_locked : (now : ℕ) → User → Bool
is_locked now u = elim u.locked_until [ none ↦ false | some t ↦ ltb now t ]

unfoldable pub is_expired : (now : ℕ) → ApiKey → Bool
is_expired now k = elim k.expires_at [ none ↦ false | some t ↦ ltb t now ]

unfoldable pub record_use : (now : ℕ) → ApiKey → ApiKey
record_use now k = record k { last_used = now; use_count = 1 + k.use_count }

-- The claims that are read of a token.
pub record Payload : Type 0 where
  pub sub : String
  pub token_type : String
  pub jti : String

-- The libraries: `jwt.decode` with its checks of the signature, the times, the issuer and the audience,
-- which raises or has the claims; SHA-256 in hexadecimal; and `bcrypt.checkpw`, which raises for what is
-- no bcrypt hash.
pub record Libraries : Type 0 where
  pub decode : Text → Option Payload
  pub sha256 : String → String
  pub checkpw : (key hash : String) → Option Bool
  pub lower : Text → Text

-- The headers `Authorization` and `X-API-Key`.
pub record Request : Type 0 where
  pub authorization : Text
  pub api_key : Option String

-- A text without its first word, and that word.
abbrev pub first_word : Text → Text
first_word [] = []
first_word (c ∷ t) = if is_space c then [] else c ∷ first_word t

abbrev pub after_word : Text → Text
after_word [] = []
after_word (c ∷ t) = if is_space c then c ∷ t else after_word t

-- `_extract_bearer_token`: the header has two parts, and the first one is `bearer`.
unfoldable pub extract_bearer_token : (lower : Text → Text) → (authorization : Text) → Option Text
unfolding lstrip strip same_text
extract_bearer_token lower authorization =
    let header = lstrip authorization in
    let token = strip (after_word header) in
    if not (is_empty token) && same_text (lower (first_word header)) (codes "bearer")
    then some token
    else none

-- The reasons for which a request is refused.
pub data Failure : Type 0 where
  no_credentials : Failure
  invalid_or_expired_jwt : Failure
  missing_sub_claim : Failure
  user_not_found : Failure
  account_inactive : Failure
  account_locked : Failure
  session_user_not_found : Failure
  api_key_too_short : Failure
  api_key_not_found : Failure
  api_key_expired : Failure
  api_key_hash_mismatch : Failure
  api_key_user_inactive : Failure

-- `_auth_error_response`, the codes.
abbrev pub error_code : Failure → String
error_code no_credentials = "NO_CREDENTIALS"
error_code invalid_or_expired_jwt = "TOKEN_INVALID"
error_code missing_sub_claim = "TOKEN_MALFORMED"
error_code user_not_found = "USER_NOT_FOUND"
error_code account_inactive = "ACCOUNT_INACTIVE"
error_code account_locked = "ACCOUNT_LOCKED"
error_code session_user_not_found = "SESSION_INVALID"
error_code api_key_too_short = "AUTH_REQUIRED"
error_code api_key_not_found = "API_KEY_INVALID"
error_code api_key_expired = "API_KEY_EXPIRED"
error_code api_key_hash_mismatch = "API_KEY_INVALID"
error_code api_key_user_inactive = "ACCOUNT_INACTIVE"
