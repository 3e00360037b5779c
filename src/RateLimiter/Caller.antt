-- ===== src/RateLimiter/Caller.antt =====
-- rate_limiter.py: who calls, and the keys that the limits are kept under.
use Prim.Native.String.{◌++◌}
use ai_chat_bot_v.Base.{ℕ, Option, none, some, [], ◌∷◌, String, str_eq, if◌then◌else◌, ◌==◌}
use ai_chat_bot_v.Base.Text.{Text, codes, strip, is_empty}

-- What the limiter reads of `request` and `g`. `user_tier` and `user_id` are the first of the two
-- attributes that is not empty.
pub record Request : Type 0 where
  pub path : Text
  pub endpoint : String
  pub forwarded_for : Option Text
  pub remote_addr : Option Text
  pub user_id : Option String
  pub api_key_id : Option String
  pub user_tier : Option String
  pub object_id : ℕ

-- `text.split(",")[0]`
unfoldable pub before_comma : Text → Text
before_comma [] = []
before_comma (c ∷ t) = if c == 44 then [] else c ∷ before_comma t

abbrev if_present : {A : Type 0} → Option Text → (Text → A) → A → A
if_present none f a = a
if_present (some t) f a = if is_empty t then a else f t

unfoldable pub get_client_ip : Request → Text
unfolding before_comma
get_client_ip r =
    if_present r.forwarded_for (λ t. strip (before_comma t))
      (if_present r.remote_addr (λ t. t) (codes "unknown"))

abbrev if_named : {A : Type 0} → Option String → (String → A) → A → A
if_named none f a = a
if_named (some s) f a = if str_eq s "" then a else f s

unfoldable pub get_user_tier : Request → String
get_user_tier r = if_named r.user_tier (λ t. t) "anonymous"

-- `hash` is the start of the hexadecimal SHA-256 digest.
module _ (hash : Text → String) where
  unfoldable pub get_hashed_ip : Request → String
  unfolding get_client_ip
  get_hashed_ip r = hash (get_client_ip r)

  unfoldable pub get_user_identifier : Request → String
  unfolding get_hashed_ip
  get_user_identifier r =
      if_named r.user_id (λ u. "user:" ++ u)
        (if_named r.api_key_id (λ k. "apikey:" ++ k) ("anon:" ++ get_hashed_ip r))

  unfoldable pub get_ip_identifier : Request → String
  unfolding get_hashed_ip
  get_ip_identifier r = "ip:" ++ get_hashed_ip r

unfoldable pub build_rate_limit_key : (identifier endpoint window_type : String) → String
build_rate_limit_key identifier endpoint window_type =
    "rl:" ++ window_type ++ ":" ++ endpoint ++ ":" ++ identifier
