-- ===== src/RateLimiter/Decorator/Outage.antt =====
-- The decorator while Redis cannot be reached.
use mathlib.Core.Path.{subst}
use ai_chat_bot_v.Base.{true-false, ap, sym, ◌∙◌, List, [], ◌∷◌, ℕ, ◌≡◌, false, String, any, ◌||◌}
use ai_chat_bot_v.Base.Text.{same_text}
use ai_chat_bot_v.RateLimiter.Bucket.{Check, check_rate_limit, fail_open, sliding_window_script}
use ai_chat_bot_v.RateLimiter.Caller.{Request, get_client_ip}
use ai_chat_bot_v.RateLimiter.Decorator.{
  Options, Answer, Host, check, serve, minute_limit, decorated, State,
}
use ai_chat_bot_v.RateLimiter.Decorator.Order.{
  Bucket, Charged, all_passed, passed_one, stopped, charge, decorated-Charged, user_bucket, buckets,
}
use ai_chat_bot_v.RateLimiter.Limits.{is_exempt}
use ai_chat_bot_v.RedisClient.Outage.{get_redis_down, eval_down}
use ai_chat_bot_v.RedisClient.Server.{RedisServer, IsDown}
use ai_chat_bot_v.RedisClient.{Client}

module _ (redis : RedisServer) (host : Host redis) (c : Client redis)
    (d : IsDown redis c.server) where
  check_rate_limit_down :
      (key : String) (limit window now : ℕ) (id : String)
      → check_rate_limit redis key limit window now id c ≡ (fail_open limit, c)
  unfolding check_rate_limit
  check_rate_limit_down key limit window now id =
      rw (eval_down redis c d (sliding_window_script redis key now window limit id))

  -- A check lets the request pass and only reads the clock.
  abbrev tick : host.World → host.World
  tick w = (host.clock w).1

  check_down :
      (key : String) (limit window : ℕ) (r : Request) (w : host.World)
      → check redis host key limit window r (w, c) ≡ (fail_open limit, (tick w, c))
  unfolding check
  check_down key limit window r w = rw (
      check_rate_limit_down key limit window (host.clock w).0
        (host.request_id (host.clock w).0 r.object_id))

  module _ (o : Options) (r : Request) where
    -- No bucket stops the request.
    Charged-down :
        (first : Check) (res : Answer host.R × State redis host) (bs : List Bucket) (w : host.World)
        → Charged redis host o r first res bs (w, c)
        → (w' : host.World) × (res ≡ serve redis host (minute_limit redis host o r) first (w', c))
    Charged-down first res [] w (all_passed st e) = (w, e)
    Charged-down first res (b ∷ bs) w (passed_one _ _ st allowed rest) =
        Charged-down first res bs (tick w) (
          subst (λ x. Charged redis host o r first res bs x.1)
            (check_down b.key b.limit b.window r w) rest)
    Charged-down first res (b ∷ bs) w (stopped _ _ st refused e) = absurd (
        true-false
          (sym (ap (λ x. x.0.is_allowed) (check_down b.key b.limit b.window r w)) ∙ refused))

    -- While Redis cannot be reached every request is served, those of a view that is to be blocked
    -- then too: no option gives a 503, and no bucket a 429. The headers show the whole limit.
    pub outage_serves :
        (w : host.World)
        → (is_exempt r.path || any (same_text (get_client_ip r)) host.allowlisted_ips) ≡ false
        → (w' : host.World) × (decorated redis host o r (w, c)
            ≡ serve redis host
                (minute_limit redis host o r)
                (fail_open (minute_limit redis host o r))
                (w', c))
    outage_serves w ordinary =
        let linked = get_redis_down redis c d in
        let charged =
          subst
            (λ x.
              Charged redis host o r (charge redis host o r (user_bucket redis host o r) (w, x)).0
                (decorated redis host o r (w, c)) (buckets redis host o r) (w, x))
            (ap (λ p. p.1) linked)
            (decorated-Charged redis host o r w c ordinary (ap (λ p. p.0) linked)) in
        let b = user_bucket redis host o r in
        subst
          (λ k.
            (w' : host.World) × (decorated redis host o r (w, c)
              ≡ serve redis host (minute_limit redis host o r) k.0 (w', c)))
          (check_down b.key b.limit b.window r w)
          (Charged-down _ _ (buckets redis host o r) w charged)
