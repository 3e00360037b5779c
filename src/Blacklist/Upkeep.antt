-- ===== src/Blacklist/Upkeep.antt =====
-- security/jwt_blacklist.py: `cleanup_expired_user_sets` and `check_blacklist_health`.
use ai_chat_bot_v.Base.{
  ℕ, ◌≡◌, refl, ap, Bool, true, false, Option, some, List, [], ◌∷◌, map, filter, String, str_eq,
  length, ◌==◌, if◌then◌else◌, Bool-cases, inl, inr,
}
use ai_chat_bot_v.RedisClient.Server.{Reply, reply, redis_error, other_error}
use ai_chat_bot_v.Blacklist.Store.{TokenStore, Stored, text}
use ai_chat_bot_v.Blacklist.{State, get_client, reset_client, user_key, jti_key}

-- What the upkeep sends beside: `smembers`, a pipeline of `exists` and a pipeline of `srem`.
pub record UserSets (store : TokenStore) : Type 0 where
  pub smembers : String → store.Server → Reply (List String) × store.Server
  pub exists_each : List String → store.Server → Reply (List ℕ) × store.Server
  pub srem_each : String → List String → store.Server → Reply Bool × store.Server

-- The members whose entry is gone, by `zip(jtis, results)`.
unfoldable pub stale_of : List String → List ℕ → List String
stale_of [] results = []
stale_of (jti ∷ jtis) [] = []
stale_of (jti ∷ jtis) (n ∷ results) =
    let rest = stale_of jtis results in if n == 0 then jti ∷ rest else rest

pub data Health : Type 0 where
  healthy degraded unhealthy : Health

module _ (store : TokenStore) (sets : UserSets store) where
  open store use {Server}

  -- An error ends the upkeep with 0; one that is no `RedisError`, which leaves the function, is taken
  -- for 0 too.
  abbrev after_reply : {A : Type 0} → Reply A × Server → (A → Server → ℕ × Server) → ℕ × Server
  after_reply (reply a, s) k = k a s
  after_reply (redis_error, s) k = (0, s)
  after_reply (other_error, s) k = (0, s)

  -- Nothing is sent if nothing is stale.
  abbrev remove_stale : (user : String) → List String → Server → ℕ × Server
  remove_stale user [] s = (0, s)
  remove_stale user (jti ∷ stale) s =
      after_reply (sets.srem_each (user_key user) (jti ∷ stale) s)
        λ done s'. (length (jti ∷ stale), s')

  abbrev clean_members : (user : String) → List String → Server → ℕ × Server
  clean_members user [] s = (0, s)
  clean_members user (jti ∷ jtis) s =
      after_reply (sets.exists_each (map jti_key (jti ∷ jtis)) s)
        λ results s'. remove_stale user (stale_of (jti ∷ jtis) results) s'

  unfoldable pub cleanup_expired_user_sets : (user : String) → State store → ℕ × State store
  unfolding get_client stale_of
  cleanup_expired_user_sets user st =
      let (there, st') = get_client store st in
      elim there [
        | false ↦ (0, st')
        | true ↦
            let (n, server') =
              after_reply (sets.smembers (user_key user) st'.server) (clean_members user) in
            (n, record st' { server = server' })
      ]

  -- `result == "ok"`
  abbrev is_ok : Option Stored → Bool
  is_ok (some (text t)) = str_eq t "ok"
  is_ok v = false

  -- `setex`, then `get`.
  abbrev probe : Server → Reply (Option Stored) × Server
  probe s =
      let (r, s') = store.setex "jwtbl:healthcheck" 10 (text "ok") s in
      elim r [
        | reply done ↦ store.get "jwtbl:healthcheck" s'
        | redis_error ↦ (redis_error, s')
        | other_error ↦ (other_error, s')
      ]

  -- An exception that is no `RedisError` leaves the function; it is taken for `unhealthy`.
  abbrev health_of : Reply (Option Stored) × Server → State store → Health × State store
  health_of (reply v, s) st = (if is_ok v then healthy else degraded, record st { server = s })
  health_of (redis_error, s) st = (unhealthy, reset_client store (record st { server = s }))
  health_of (other_error, s) st = (unhealthy, record st { server = s })

  unfoldable pub check_blacklist_health : State store → Health × State store
  unfolding get_client
  check_blacklist_health st =
      let (there, st') = get_client store st in
      elim there [ false ↦ (unhealthy, st') | true ↦ health_of (probe st'.server) st' ]

-- If each result is how many of the keys exist, exactly the members whose entry is gone are stale.
pub stale_of-eq-filter :
    (count_of : String → ℕ) (jtis : List String)
    → stale_of jtis (map count_of jtis) ≡ filter (λ jti. count_of jti == 0) jtis
unfolding stale_of
stale_of-eq-filter count_of [] = refl
stale_of-eq-filter count_of (jti ∷ jtis) = elim (Bool-cases (count_of jti == 0)) [
  | inl gone ↦ rw gone (ap (λ l. jti ∷ l) (stale_of-eq-filter count_of jtis))
  | inr kept ↦ rw kept (stale_of-eq-filter count_of jtis)
]
