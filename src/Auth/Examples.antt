-- ===== src/Auth/Examples.antt =====
-- Requests that bring a token, a session or an API key.
use ai_chat_bot_v.Base.{◌≡◌, refl, true, false, none, some, [], ◌∷◌, String, arith}
use ai_chat_bot_v.Base.Text.{codes, is_space}
use ai_chat_bot_v.Auth.{
  User, ApiKey, Payload, Libraries, Request, extract_bearer_token, Failure, invalid_or_expired_jwt,
}
use ai_chat_bot_v.Auth.Resolve.{Context, refused, resolve_user_from_request}
use ai_chat_bot_v.Auth.Resolve.Revoked.{revoke, revoked_token_refused}
use ai_chat_bot_v.Auth.Resolve.Keys.{api_keys_never_work}
use ai_chat_bot_v.Auth.Guards.{granted, require_admin, require_admin-granted}
use ai_chat_bot_v.Blacklist.Sample.{memory, memory_reached}

abbrev claims : Payload
claims = record { sub = "ann"; token_type = "access"; jti = "t1" }

-- Every token is Ann's, and no hash is bcrypt's.
abbrev libraries : Libraries
libraries = record {
  decode = λ token. some claims;
  sha256 = λ key. key;
  checkpw = λ key hash. none;
  lower = λ t. t;
}

abbrev ann : User
ann = record {
  id = "ann";
  tier = "pro";
  is_admin = true;
  is_active = true;
  is_deleted = false;
  locked_until = none;
  last_active = 0;
}

abbrev long_key : String
long_key = "dm_0123456789012345678901234567890123456789"

abbrev ann_key : ApiKey
ann_key = record {
  user_id = "ann";
  key_hash = long_key;
  is_active = true;
  is_deleted = false;
  expires_at = none;
  scopes = [];
  last_used = 0;
  use_count = 0;
}

abbrev context : Context memory
context = record {
  users = ann ∷ [];
  keys = ann_key ∷ [];
  session = none;
  api_key_scopes = none;
  revocations = record { connected = false; server = [] };
}

abbrev with_token : Request
with_token = record { authorization = codes "bearer x"; api_key = none }

abbrev with_key : Request
with_key = record { authorization = []; api_key = some long_key }

bearer_token : extract_bearer_token libraries.lower with_token.authorization ≡ some (codes "x")
unfolding extract_bearer_token is_space
bearer_token = refl

revoked_token_refused_example :
    (resolve_user_from_request libraries memory 5 with_token
      (revoke memory "t1" 3600 (some "ann") "logout" 1000 context)).0
    ≡ refused invalid_or_expired_jwt
revoked_token_refused_example =
    revoked_token_refused libraries memory memory_reached 5 with_token context (codes "x") claims
      3600 (some "ann") "logout" 1000 tt bearer_token refl refl (omega arith)

no_token : extract_bearer_token libraries.lower with_key.authorization ≡ none
unfolding extract_bearer_token
no_token = refl

api_keys_never_work_example :
    (f : Failure) × (resolve_user_from_request libraries memory 5 with_key context
      ≡ (refused f, context))
api_keys_never_work_example =
    api_keys_never_work libraries memory 5 with_key context (λ key. refl) no_token refl

-- Ann with the time of her request.
abbrev ann_now : User
ann_now = record ann { last_active = 5 }

admin_granted : (require_admin libraries memory 5 with_token context).0 ≡ granted ann_now
unfolding require_admin is_space
admin_granted = refl

require_admin-granted_example :
    (ann_now.is_admin ≡ true) × ((ann_now.is_active ≡ true) × (ann_now.is_deleted ≡ false))
require_admin-granted_example =
    require_admin-granted libraries memory 5 with_token context ann_now admin_granted
