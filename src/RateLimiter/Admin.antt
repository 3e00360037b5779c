-- ===== src/RateLimiter/Admin.antt =====
-- rate_limiter.py: overrides, resets, and blocked and allowed addresses.
use Prim.Native.String.{◌++◌}
use ai_chat_bot_v.Base.{
  ℕ, Bool, true, false, not, List, [], ◌∷◌, String, str_eq, if◌then◌else◌, filter, any,
}
use ai_chat_bot_v.Base.Int.{pos}
use ai_chat_bot_v.Base.Text.{Text, same_text}
use ai_chat_bot_v.RateLimiter.Caller.{build_rate_limit_key}
use ai_chat_bot_v.RedisClient.Server.{number, RedisServer}
use ai_chat_bot_v.RedisClient.{
  Returned, ret, raised, Client, get_redis, setex, exists, delete, keys,
}

-- `add_to_allowlist` and `remove_from_allowlist`; the list stands for a set.
unfoldable pub add_to_allowlist : Text → List Text → List Text
add_to_allowlist ip allowed = if any (same_text ip) allowed then allowed else ip ∷ allowed

unfoldable pub remove_from_allowlist : Text → List Text → List Text
remove_from_allowlist ip = filter (λ a. not (same_text ip a))

module _ (redis : RedisServer) where
  -- A call after which the function returns `True`; an exception makes it `False`.
  abbrev pub done : {A : Type 0} → Returned A → Bool
  done (ret a) = true
  done raised = false

  -- `redis.setex` whose answer is not looked at.
  abbrev pub store : String → (ttl : ℕ) → ℕ → Client redis → Bool × Client redis
  store key ttl n c =
      let (there, c') = get_redis redis c in
      elim there [
        | false ↦ (false, c')
        | true ↦ let (r, c'') = setex redis key ttl (number (pos n)) c' in (done r, c'')
      ]

  unfoldable pub set_user_rate_limit_override :
      (user : String) → (limit ttl_seconds : ℕ) → Client redis → Bool × Client redis
  set_user_rate_limit_override user limit ttl_seconds c =
      store ("rl:override:user:" ++ user) ttl_seconds limit c

  -- `if keys: redis.delete(*keys)`
  abbrev delete_found : Returned (List String) → Client redis → Bool × Client redis
  delete_found raised c = (false, c)
  delete_found (ret []) c = (true, c)
  delete_found (ret (k ∷ ks)) c = let (r, c') = delete redis (k ∷ ks) c in (done r, c')

  unfoldable pub reset_user_rate_limit :
      (user endpoint : String) → Client redis → Bool × Client redis
  reset_user_rate_limit user endpoint c =
      let (there, c') = get_redis redis c in
      elim there [
        | false ↦ (false, c')
        | true ↦
            if str_eq endpoint "*"
            then (let (found, c'') = keys redis ("rl:*:*:user:" ++ user) c' in
                delete_found found c'')
            else (let key = build_rate_limit_key ("user:" ++ user) endpoint "min" in
                let (r, c'') = delete redis (key ∷ []) c' in (done r, c''))
      ]

  -- `hash` is the start of the hexadecimal SHA-256 digest.
  module _ (hash : Text → String) where
    unfoldable pub block_ip : Text → (duration : ℕ) → Client redis → Bool × Client redis
    block_ip ip duration c = store ("rl:blocked:ip:" ++ hash ip) duration 1 c

    abbrev pub found : Returned Bool → Bool
    found (ret b) = b
    found raised = false

    unfoldable pub is_ip_blocked : Text → Client redis → Bool × Client redis
    is_ip_blocked ip c =
        let (there, c') = get_redis redis c in
        elim there [
          | false ↦ (false, c')
          | true ↦ let (r, c'') = exists redis ("rl:blocked:ip:" ++ hash ip) c' in (found r, c'')
        ]
