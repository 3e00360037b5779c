-- ===== src/RateLimiter/Examples.antt =====
-- The theorems on the rate limiter at a small server, host and series of requests.
use ai_chat_bot_v.Base.{
  ℕ, ◌+◌, ◌≤◌, ◌≡◌, refl, Bool, true, false, ◌&&◌, none, some, List, [], ◌∷◌, String, leb, arith,
  seconds, bit, count,
}
use ai_chat_bot_v.Base.Dict.{get_or, insert, get_or-insert}
use ai_chat_bot_v.Base.Text.{codes}
use ai_chat_bot_v.RateLimiter.Bucket.{check_of, fail_open, sliding_window_script}
use ai_chat_bot_v.RateLimiter.Bucket.Sliding.{SortedSets, Arrival, recent, ideal, admitted}
use ai_chat_bot_v.RateLimiter.Bucket.Sliding.Refinement.{admitted-ideal, admitted_bound}
use ai_chat_bot_v.RateLimiter.Caller.{Request, get_client_ip}
use ai_chat_bot_v.RateLimiter.Decorator.{Host, limit_auth, decorated, serve, per_minute_limit}
use ai_chat_bot_v.RateLimiter.Decorator.Order.{
  Charged, charge, user_bucket, buckets, decorated-Charged,
}
use ai_chat_bot_v.RateLimiter.Decorator.Outage.{outage_serves}
use ai_chat_bot_v.RateLimiter.Limits.{is_exempt}
use ai_chat_bot_v.RedisClient.Sample.{sample, contents, Members, add_sorted, sample-IsDown}
use ai_chat_bot_v.RedisClient.{Client, get_redis}

count-add_sorted :
    (p : ℕ × String → Bool) (s : ℕ) (name : String) (ms : Members)
    → count p (add_sorted s name ms) ≡ bit (p (s, name)) + count p ms
count-add_sorted p s name [] = refl
count-add_sorted p s name ((t, n) ∷ ms) = ground (arith, count-add_sorted p s name ms)

abbrev sample_sets : SortedSets sample
sample_sets = record {
  members = λ k d. get_or k d [];
  zremrangebyscore_lem = λ k u d. get_or-insert k _ [] d;
  zcard_lem = λ k d. refl;
  expire_lem = λ k n d. refl;
  zadd_lem = λ k s id d p new.
      rw (get_or-insert k (add_sorted s id (get_or k d [])) [] d)
        (count-add_sorted p s id (get_or k d []));
}

abbrev client : Bool → Client sample
client up = record { connected = true; server = contents up }

-- Four requests for a bucket of two requests in ten seconds, of which the third is refused.
abbrev arrivals : List Arrival
arrivals = (seconds 100, "a") ∷ (seconds 104, "b") ∷ (seconds 109, "c") ∷ (seconds 111, "d") ∷ []

admits_three :
    admitted sample "rl" 10 2 arrivals [] [] ≡ seconds 111 ∷ seconds 104 ∷ seconds 100 ∷ []
unfolding admitted sliding_window_script check_of insert
admits_three = refl

admitted-ideal_example : admitted sample "rl" 10 2 arrivals [] [] ≡ ideal 10 2 arrivals []
admitted-ideal_example =
    admitted-ideal sample sample_sets "rl" 10 2 arrivals [] refl
      (omega arith, (omega arith, (omega arith, (omega arith, tt))))
      ((refl, (refl, (refl, tt))), ((refl, (refl, tt)), ((refl, tt), (tt, tt))))

admitted_bound_example :
    count
      (λ t. leb t (seconds 111) && recent 10 (seconds 111) t)
      (admitted sample "rl" 10 2 arrivals [] [])
    ≤ 2
admitted_bound_example =
    admitted_bound sample sample_sets "rl" 10 2 arrivals [] (seconds 111) refl
      (omega arith, (omega arith, (omega arith, (omega arith, tt))))
      ((refl, (refl, (refl, tt))), ((refl, (refl, tt)), ((refl, tt), (tt, tt))))

-- A bucket with two entries.
abbrev full : Client sample
full = record {
  connected = true;
  server = record (contents true) {
    sets = ("rl", (seconds 100, "a") ∷ (seconds 104, "b") ∷ []) ∷ [];
  };
}

-- A host whose clock moves on by a second at each reading.
abbrev host : Host sample
host = record {
  World = ℕ;
  R = String;
  clock = λ w. (w, w + seconds 1);
  view = λ w c. ("done", (w, c));
  takes_headers = λ r. true;
  hash = λ t. "h";
  request_id = λ now object. "id";
  rate_limit_per_user = 60;
  allowlisted_ips = [];
}

abbrev login : Request
login = record {
  path = codes "/auth/login";
  endpoint = "login";
  forwarded_for = none;
  remote_addr = some (codes "10.0.0.7");
  user_id = none;
  api_key_id = none;
  user_tier = none;
  object_id = 7;
}

decorated-Charged_example :
    Charged sample host
      (limit_auth true)
      login
      (charge sample host
        (limit_auth true)
        login
        (user_bucket sample host (limit_auth true) login)
        (seconds 50, (get_redis sample (client true)).1)).0
      (decorated sample host (limit_auth true) login (seconds 50, client true))
      (buckets sample host (limit_auth true) login)
      (seconds 50, (get_redis sample (client true)).1)
unfolding get_redis is_exempt get_client_ip
decorated-Charged_example =
    decorated-Charged sample host (limit_auth true) login (seconds 50) (client true) refl refl

outage_serves_example :
    (w : ℕ) × (decorated sample host (limit_auth true) login (seconds 50, client false)
      ≡ serve sample host 5 (fail_open 5) (w, client false))
unfolding is_exempt get_client_ip per_minute_limit
outage_serves_example =
    outage_serves sample host (client false) sample-IsDown (limit_auth true) login (seconds 50) refl
