-- ===== src/Blacklist.antt =====
-- security/jwt_blacklist.py: the revocation of single tokens and of all the tokens of a user.
pub mod Store
pub mod Laws
pub mod Sample
pub mod Upkeep
mod Examples
use Prim.Native.String.{◌++◌}
use ai_chat_bot_v.Base.{
  ℕ, ◌+◌, ◌*◌, ◌/◌, max, Bool, true, false, Option, none, some, List, [], ◌∷◌, ◌++◌ as append,
  String, str_eq, ltb, if◌then◌else◌, length, map,
}
use ai_chat_bot_v.Blacklist.Store.{
  TokenStore, Command, setex, sadd, expire, hincrby, hset, Stored, number, text,
}
use ai_chat_bot_v.RedisClient.Server.{Reply, reply, redis_error, other_error}

abbrev pub jti_key : String → String
jti_key jti = "jwtbl:jti:" ++ jti

abbrev pub user_key : String → String
user_key user = "jwtbl:user:" ++ user

abbrev pub revoke_all_key : String → String
revoke_all_key user = "jwtbl:revoke_all:" ++ user

abbrev pub stats_key : String
stats_key = "jwtbl:stats"

abbrev pub thirty_days : ℕ
thirty_days = 86_400 * 30

-- `if user_id`
abbrev if_user : Option String → (String → List Command) → List Command
if_user none f = []
if_user (some u) f = if str_eq u "" then [] else f u

module _ (store : TokenStore) where
  open store use {Server}

  -- `_redis_client` is set, and the server.
  pub record State : Type 0 where
    pub connected : Bool
    pub server : Server

  abbrev pub reset_client : State → State
  reset_client st = record st { connected = false }

  -- `_get_client`: whether there is a client, which has answered a ping when it was made.
  unfoldable pub get_client : State → Bool × State
  get_client st = elim st.connected [
    | true ↦ (true, st)
    | false ↦
        let (r, server') = store.ping st.server in
        elim r [
          | reply pong ↦ (true, record { connected = true; server = server' })
          | redis_error ↦ (false, record { connected = false; server = server' })
          | other_error ↦ (false, record { connected = false; server = server' })
        ]
  ]

  -- A command after which the function answers; a `RedisError` resets the client.
  abbrev pub after_command :
      {A B : Type 0} → (A → B) → (failed : B) → (Server → Reply A × Server) → State → B × State
  after_command f failed command st =
      let (r, server') = command st.server in
      elim r [
        | reply a ↦ (f a, record st { server = server' })
        | redis_error ↦ (failed, reset_client (record st { server = server' }))
        | other_error ↦ (failed, record st { server = server' })
      ]

  -- The shape of the functions: an answer where there is no client, and a command.
  unfoldable pub with_client :
      {A B : Type 0} → (A → B) → (failed : B) → (Server → Reply A × Server) → State → B × State
  unfolding get_client
  with_client f failed command st =
      let (there, st') = get_client st in
      elim there [ false ↦ (failed, st') | true ↦ after_command f failed command st' ]

  -- What the transaction of `add_to_blacklist` does beside the entry itself.
  abbrev pub tracking : String → (expires_in : ℕ) → Option String → (now : ℕ) → List Command
  tracking jti expires_in user now =
      append
        (if_user user (λ u.
          sadd (user_key u) (jti ∷ [])
          ∷ expire (user_key u) (max (expires_in + 60) thirty_days)
          ∷ []))
        (hincrby stats_key "total_revoked" 1 ∷ hset stats_key "last_revoked_at" now ∷ [])

  abbrev pub revocation :
      String → (expires_in : ℕ) → Option String → (reason : String) → (now : ℕ) → List Command
  revocation jti expires_in user reason now =
      setex (jti_key jti) (expires_in + 60) (text reason) ∷ tracking jti expires_in user now

  -- An `expires_in_seconds` that is 0 or negative is 0 here.
  unfoldable pub add_to_blacklist :
      (jti : String)
      → (expires_in : ℕ) → Option String
      → (reason : String) → (now : ℕ) → State
      → Bool × State
  unfolding with_client
  add_to_blacklist jti expires_in user reason now st =
      if str_eq jti ""
      then (false, st)
      else if ltb 0 expires_in
      then with_client (λ done. true) false
          (store.pipeline (revocation jti expires_in user reason now)) st
      else (true, st)

  unfoldable pub is_blacklisted : (jti : String) → State → Bool × State
  unfolding with_client
  is_blacklisted jti st =
      if str_eq jti ""
      then (false, st)
      else with_client (λ n. ltb 0 n) false (store.exists (jti_key jti)) st

  -- `None` or text; any other value is not stored under such a key.
  abbrev text_of : Option Stored → Option String
  text_of (some (text t)) = some t
  text_of v = none

  -- Whatever fails but a `RedisError` is raised here, and the client is not reset; both are taken
  -- for no reason.
  unfoldable pub get_revocation_reason : (jti : String) → State → Option String × State
  unfolding get_client
  get_revocation_reason jti st =
      let (there, st') = get_client st in
      elim there [
        | false ↦ (none, st')
        | true ↦
            let (r, server') = store.get (jti_key jti) st'.server in
            (
              elim r [ reply v ↦ text_of v | redis_error ↦ none | other_error ↦ none ],
              record st' { server = server' },
            )
      ]

  -- `setex`, and the count of it.
  abbrev pub note_revocation : String → (now : ℕ) → Server → Reply ℕ × Server
  note_revocation user now s =
      let (r, s') = store.setex (revoke_all_key user) thirty_days (number now) s in
      elim r [
        | reply done ↦ store.hincrby stats_key "bulk_revocations" 1 s'
        | redis_error ↦ (redis_error, s')
        | other_error ↦ (other_error, s')
      ]

  -- `now` is `int(time.time())`. An exception that is no `RedisError` leaves the function; it is
  -- taken for `False`.
  unfoldable pub revoke_all_user_tokens : (user : String) → (now : ℕ) → State → Bool × State
  unfolding with_client
  revoke_all_user_tokens user now = with_client (λ n. true) false (note_revocation user now)

  -- The time under the key, if it is a number. The `ValueError` of another text is caught; an
  -- exception that is neither this nor a `RedisError` is taken for `False` too.
  abbrev pub issued_before : (issued_at : ℕ) → Option Stored → Bool
  issued_before issued_at (some (number revoked)) = ltb issued_at revoked
  issued_before issued_at v = false

  unfoldable pub is_user_globally_revoked : (user : String) → (issued_at : ℕ) → State → Bool × State
  unfolding get_client
  is_user_globally_revoked user issued_at st =
      let (there, st') = get_client st in
      elim there [
        | false ↦ (false, st')
        | true ↦
            let (r, server') = store.get (revoke_all_key user) st'.server in
            (
              elim r [
                | reply v ↦ issued_before issued_at v
                | redis_error ↦ false
                | other_error ↦ false
              ],
              record st' { server = server' },
            )
      ]

  -- The pipeline of `revoke_tokens_list`.
  abbrev pub revocations :
      List String → (expires_in : ℕ) → Option String → (reason : String) → List Command
  revocations jtis expires_in user reason =
      append (map (λ jti. setex (jti_key jti) (expires_in + 60) (text reason)) jtis) (
        append (if_user user (λ u. sadd (user_key u) jtis ∷ expire (user_key u) thirty_days ∷ []))
          (hincrby stats_key "total_revoked" (length jtis) ∷ []))

  -- An exception that is no `RedisError` leaves the function; it is taken for 0.
  unfoldable pub revoke_tokens_list :
      List String → (expires_in : ℕ) → Option String → (reason : String) → State → ℕ × State
  unfolding with_client
  revoke_tokens_list [] expires_in user reason st = (0, st)
  revoke_tokens_list (jti ∷ jtis) expires_in user reason st =
      with_client (λ done. length (jti ∷ jtis)) 0
        (store.pipeline (revocations (jti ∷ jtis) expires_in user reason)) st
