-- ===== src/RateLimiter/Decorator/Order.antt =====
-- The order in which the decorator charges its buckets, as a relation, and that `decorated` obeys it.
use ai_chat_bot_v.Base.{
  ℕ, zero, suc, ◌*◌, ◌/◌, ◌≡◌, refl, Bool, true, false, List, [], ◌∷◌, ◌++◌, String, any, ◌||◌,
  Bool-cases, inl, inr, if◌then◌else◌,
}
use ai_chat_bot_v.Base.Text.{same_text}
use ai_chat_bot_v.RateLimiter.Bucket.{Check}
use ai_chat_bot_v.RateLimiter.Caller.{
  Request, get_client_ip, get_user_identifier, get_ip_identifier,
}
use ai_chat_bot_v.RateLimiter.Decorator.{
  Options, Answer, Host, check, serve, build_429_response, minute_limit, limit_hour, limit_ip,
  limit_user, decorated, State, key_of, hourly,
}
use ai_chat_bot_v.RateLimiter.Limits.{is_exempt}
use ai_chat_bot_v.RedisClient.Server.{RedisServer}
use ai_chat_bot_v.RedisClient.{Client, get_redis}

pub record Bucket : Type 0 where
  pub identifier : String
  pub key : String
  pub limit : ℕ
  pub window : ℕ

module _ (redis : RedisServer) (host : Host redis) (o : Options) (r : Request) where
  abbrev pub charge : Bucket → State redis host → Check × State redis host
  charge b = check redis host b.key b.limit b.window r

  -- The buckets are charged from the left. If all let the request pass, the view is run, with the
  -- headers that the first check gives; the first that refuses ends the request with its 429, and
  -- neither a later bucket nor the view is touched.
  pub data Charged (first : Check) (res : Answer host.R × State redis host)
      : List Bucket → State redis host → Type 0 where
    all_passed :
        (st : State redis host)
        → res ≡ serve redis host (minute_limit redis host o r) first st
        → Charged first res [] st
    passed_one :
        (b : Bucket) (bs : List Bucket) (st : State redis host)
        → (charge b st).0.is_allowed ≡ true
        → Charged first res bs (charge b st).1
        → Charged first res (b ∷ bs) st
    stopped :
        (b : Bucket) (bs : List Bucket) (st : State redis host)
        → (charge b st).0.is_allowed ≡ false
        → res ≡ build_429_response redis host b.identifier (charge b st).0 b.window (charge b st).1
        → Charged first res (b ∷ bs) st

  abbrev pub user_bucket : Bucket
  user_bucket =
      let id = get_user_identifier host.hash r in
      record {
        identifier = id;
        key = key_of redis host o r id "min";
        limit = minute_limit redis host o r;
        window = 60;
      }

  abbrev ip_buckets : Bool → List Bucket
  ip_buckets false = []
  ip_buckets true =
      let id = get_ip_identifier host.hash r in
      record {
        identifier = id;
        key = key_of redis host o r id "min";
        limit = minute_limit redis host o r * o.ip_limit_multiplier / 100;
        window = 60;
      }
      ∷ []

  abbrev hour_buckets : ℕ → List Bucket
  hour_buckets zero = []
  hour_buckets (suc n) =
      let id = get_user_identifier host.hash r in
      record {
        identifier = id;
        key = key_of redis host o r id "hour";
        limit = suc n;
        window = 3600;
      }
      ∷ []

  -- The user's bucket by the minute, the address's, and the user's by the hour, as the options say.
  abbrev pub buckets : List Bucket
  buckets = user_bucket ∷ (ip_buckets o.check_ip ++ hour_buckets (hourly redis host o r))

  charge_one :
      (first : Check) (b : Bucket) (bs : List Bucket) (st : State redis host)
      (next : Answer host.R × State redis host)
      → Charged first next bs (charge b st).1
      → Charged first
          (if (charge b st).0.is_allowed
            then next
            else build_429_response redis host b.identifier
                (charge b st).0
                b.window
                (charge b st).1)
          (b ∷ bs)
          st
  charge_one first b bs st next rest = elim (Bool-cases (charge b st).0.is_allowed) [
    | inl yes' ↦ rw yes' (passed_one b bs st yes' rest)
    | inr no' ↦ rw no' (stopped b bs st no' refl)
  ]

  limit_hour-Charged :
      (n : ℕ) (k : Check) (st : State redis host)
      → Charged k (limit_hour redis host o r n k st) (hour_buckets n) st
  unfolding limit_hour
  limit_hour-Charged zero k st = all_passed st refl
  limit_hour-Charged (suc n) k st =
      charge_one k _ [] st (serve redis host (minute_limit redis host o r) k _) (all_passed _ refl)

  limit_ip-Charged :
      (by_ip : Bool) (k : Check) (st : State redis host)
      → Charged k
          (limit_ip redis host o r by_ip k st)
          (ip_buckets by_ip ++ hour_buckets (hourly redis host o r))
          st
  unfolding limit_ip
  limit_ip-Charged false k st = limit_hour-Charged (hourly redis host o r) k st
  limit_ip-Charged true k st =
      charge_one k _ (hour_buckets (hourly redis host o r)) st _
        (limit_hour-Charged (hourly redis host o r) k _)

  -- An ordinary request, with a Redis client at hand.
  pub decorated-Charged :
      (w : host.World) (c : Client redis)
      → (is_exempt r.path || any (same_text (get_client_ip r)) host.allowlisted_ips) ≡ false
      → (get_redis redis c).0 ≡ true
      → Charged
          (charge user_bucket (w, (get_redis redis c).1)).0
          (decorated redis host o r (w, c))
          buckets
          (w, (get_redis redis c).1)
  unfolding decorated limit_user
  decorated-Charged w c ordinary there =
      let st : State redis host = (w, (get_redis redis c).1) in
      let k = (charge user_bucket st).0 in
      rw (decorated, ordinary, there, limit_user)
        (charge_one k user_bucket (ip_buckets o.check_ip ++ hour_buckets (hourly redis host o r)) st
          _ (limit_ip-Charged o.check_ip k (charge user_bucket st).1))
