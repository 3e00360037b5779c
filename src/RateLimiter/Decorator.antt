-- ===== src/RateLimiter/Decorator.antt =====
-- rate_limiter.py: the decorator `rate_limit` and the decorators made from it. A multiplier is in
-- hundredths; the body of a 429 response is its numbers.
pub mod Outage
pub mod Order
use ai_chat_bot_v.Base.{
  ℕ, zero, suc, ◌+◌, ◌-◌, ◌*◌, ◌/◌, Bool, true, false, not, Option, none, some, List, [], ◌∷◌,
  String, any, ltb, ◌==◌, if◌then◌else◌, ◌||◌, str_eq,
}
use ai_chat_bot_v.Base.Text.{Text, same_text}
use ai_chat_bot_v.RateLimiter.Bucket.{Check, check_rate_limit}
use ai_chat_bot_v.RateLimiter.Caller.{
  Request, get_client_ip, get_user_tier, get_user_identifier, get_ip_identifier,
  build_rate_limit_key,
}
use ai_chat_bot_v.RateLimiter.Limits.{tier_limit, is_exempt}
use ai_chat_bot_v.RedisClient.Server.{RedisServer}
use ai_chat_bot_v.RedisClient.{Client, get_redis}

-- The arguments of `rate_limit`.
pub record Options : Type 0 where
  pub requests_per_minute : Option ℕ
  pub requests_per_hour : Option ℕ
  pub by_tier : Bool
  pub endpoint_type : String
  pub key_prefix : Option String
  pub check_ip : Bool
  pub ip_limit_multiplier : ℕ
  pub block_on_redis_failure : Bool

abbrev pub default_options : Options
default_options = record {
  requests_per_minute = none;
  requests_per_hour = none;
  by_tier = false;
  endpoint_type = "default";
  key_prefix = none;
  check_ip = true;
  ip_limit_multiplier = 300;
  block_on_redis_failure = false;
}

abbrev pub limit_auth : (strict : Bool) → Options
limit_auth strict = record default_options {
  requests_per_minute = some (if strict then 5 else 20);
  endpoint_type = "auth";
  ip_limit_multiplier = 200;
  block_on_redis_failure = true;
}

abbrev tier_based : String → Options
tier_based endpoint_type = record default_options { by_tier = true; endpoint_type = endpoint_type }

abbrev pub limit_chat : (rate_limit_per_user : ℕ) → (by_tier : Bool) → Options
limit_chat rate_limit_per_user by_tier =
    if by_tier then tier_based "chat" else record default_options {
      requests_per_minute = some rate_limit_per_user;
      endpoint_type = "chat";
    }

abbrev pub limit_upload : Options
limit_upload = record (tier_based "upload") { requests_per_hour = some 50 }

abbrev pub limit_agent : Options
limit_agent = record (tier_based "agent") { requests_per_hour = some 100 }

-- A 429 response, whose bucket is the identifier.
pub record Refusal : Type 0 where
  pub identifier : String
  pub limit : ℕ
  pub current : ℕ
  pub retry_after : ℕ
  pub window_seconds : ℕ
  pub reset : ℕ

-- `_add_rate_limit_headers`
pub record RateHeaders : Type 0 where
  pub limit : ℕ
  pub remaining : ℕ
  pub reset_at : ℕ
  pub window : ℕ

-- How `decorated` answers: with the view's response as it is or with headers, with a 429, or with a
-- 503.
pub data Answer (R : Type 0) : Type 0 where
  passed : R → Answer R
  served : R → RateHeaders → Answer R
  too_many : Refusal → Answer R
  unavailable : Answer R

-- `x or default`
abbrev or_default : Option ℕ → ℕ → ℕ
or_default none d = d
or_default (some n) d = if n == 0 then d else n

abbrev name_or : Option String → String → String
name_or none d = d
name_or (some s) d = if str_eq s "" then d else s

unfoldable pub per_minute_limit : (rate_limit_per_user : ℕ) → Options → Request → ℕ
per_minute_limit rate_limit_per_user o r =
    if o.by_tier
    then tier_limit (get_user_tier r) o.endpoint_type
    else or_default o.requests_per_minute rate_limit_per_user

abbrev pub endpoint_of : Options → Request → String
endpoint_of o r = name_or o.key_prefix (name_or (some r.endpoint) "unknown")

-- The host: the clock, the view, and the settings. `R` is the view's response; `takes_headers` says
-- whether it is a response object or a tuple.
pub record Host (redis : RedisServer) : Type 1 where
  pub World : Type 0
  pub R : Type 0
  pub clock : World → ℕ × World
  pub view : World → Client redis → R × (World × Client redis)
  pub takes_headers : R → Bool
  pub hash : Text → String
  pub request_id : (now object : ℕ) → String
  pub rate_limit_per_user : ℕ
  pub allowlisted_ips : List Text

module _ (redis : RedisServer) (host : Host redis) where
  open host use {World, R}

  abbrev pub State : Type 0
  State = World × Client redis

  unfoldable pub check : String → (limit window : ℕ) → Request → State → Check × State
  check key limit window r (w, c) =
      let (now, w') = host.clock w in
      let (k, c') =
        check_rate_limit redis key limit window now (host.request_id now r.object_id) c in
      (k, (w', c'))

  unfoldable pub build_429_response : String → Check → (window : ℕ) → State → Answer R × State
  build_429_response identifier k window (w, c) =
      let (now, w') = host.clock w in
      (
        too_many (record {
          identifier = identifier;
          limit = k.limit;
          current = k.count;
          retry_after = k.retry_after;
          window_seconds = window;
          reset = now / 1_000_000 + k.retry_after;
        }),
        (w', c),
      )

  abbrev pass_through : State → Answer R × State
  pass_through (w, c) = let (response, st) = host.view w c in (passed response, st)

  -- From "Request allowed" on.
  unfoldable pub serve : (limit : ℕ) → Check → State → Answer R × State
  serve limit k (w, c) =
      let (now, w') = host.clock w in
      let (response, st) = host.view w' c in
      (
        if host.takes_headers response
            then served response (record {
              limit = limit;
              remaining = limit - k.count;
              reset_at = now / 1_000_000 + 60;
              window = 60;
            })
            else passed response,
        st,
      )

  module _ (o : Options) (r : Request) where
    abbrev pub minute_limit : ℕ
    minute_limit = per_minute_limit host.rate_limit_per_user o r

    abbrev pub key_of : (identifier window_type : String) → String
    key_of identifier = build_rate_limit_key identifier (endpoint_of o r)

    -- The hourly limit, and the view; 0 stands for no hourly limit.
    unfoldable pub limit_hour : ℕ → Check → State → Answer R × State
    unfolding check build_429_response serve
    limit_hour zero user st = serve minute_limit user st
    limit_hour (suc n) user st =
        let id = get_user_identifier host.hash r in
        let (k, st') = check (key_of id "hour") (suc n) 3600 r st in
        if k.is_allowed then serve minute_limit user st' else build_429_response id k 3600 st'

    abbrev pub hourly : ℕ
    hourly = or_default o.requests_per_hour 0

    -- The limit of the address, and what follows.
    unfoldable pub limit_ip : (check_ip : Bool) → Check → State → Answer R × State
    unfolding limit_hour
    limit_ip false user st = limit_hour hourly user st
    limit_ip true user st =
        let id = get_ip_identifier host.hash r in
        let limit = minute_limit * o.ip_limit_multiplier / 100 in
        let (k, st') = check (key_of id "min") limit 60 r st in
        if k.is_allowed then limit_hour hourly user st' else build_429_response id k 60 st'

    -- The user's limit, and what follows.
    unfoldable pub limit_user : State → Answer R × State
    unfolding limit_ip
    limit_user st =
        let id = get_user_identifier host.hash r in
        let (k, st') = check (key_of id "min") minute_limit 60 r st in
        if k.is_allowed then limit_ip o.check_ip k st' else build_429_response id k 60 st'

    unfoldable pub decorated : State → Answer R × State
    unfolding limit_user
    decorated (w, c) =
        if is_exempt r.path || any (same_text (get_client_ip r)) host.allowlisted_ips
        then pass_through (w, c)
        else let (there, c') = get_redis redis c in
          elim there [
            | true ↦ limit_user (w, c')
            | false ↦
                if o.block_on_redis_failure then (unavailable, (w, c')) else pass_through (w, c')
          ]
