-- ===== src/Auth/Session.antt =====
-- auth_middleware.py, `create_user_session`, `blacklist_token` and `destroy_user_session`: of the
-- session only the user's id is kept, which is all that is read of it again.
use mathlib.Core.Path.{subst, sym}
use ai_chat_bot_v.Base.{
  ℕ, ◌*◌, ◌<◌, ◌≡◌, Bool, true, false, Option, none, some, String, str_eq, if◌then◌else◌, arith,
}
use ai_chat_bot_v.Base.Text.{Text}
use ai_chat_bot_v.Auth.{User, Payload, Libraries, Request, extract_bearer_token}
use ai_chat_bot_v.Auth.Resolve.{Context, decode_access_token}
use ai_chat_bot_v.Auth.Resolve.Revoked.{checked_claims-revoked}
use ai_chat_bot_v.Blacklist.{State as Revocations, add_to_blacklist, is_blacklisted}
use ai_chat_bot_v.Blacklist.Laws.{is_blacklisted-add_to_blacklist}
use ai_chat_bot_v.Blacklist.Store.{TokenStore, Reached}

module _ (libraries : Libraries) (store : TokenStore) (now : ℕ) (jwt_expiry_hours : ℕ) where
  abbrev pub create_user_session : User → Context store → Context store
  create_user_session u c = record c { session = some u.id }

  -- `blacklist_token`, with the defaults of the user and the reason.
  abbrev pub blacklist_token : String → Revocations store → Bool × Revocations store
  blacklist_token jti st = add_to_blacklist store jti (jwt_expiry_hours * 3600) none "logout" now st

  abbrev revoke_claims : Option Payload → Context store → Option String × Context store
  revoke_claims none c = (none, c)
  revoke_claims (some p) c =
      let (done, revocations') = blacklist_token p.jti c.revocations in
      if str_eq p.jti "" then (none, c) else (some p.jti, record c { revocations = revocations' })

  abbrev revoke_token : Option Text → Context store → Option String × Context store
  revoke_token none c = (none, c)
  revoke_token (some token) c =
      let (claims, revocations') = decode_access_token libraries store now token c.revocations in
      revoke_claims claims (record c { revocations = revocations' })

  unfoldable pub destroy_user_session : Request → Context store → Option String × Context store
  unfolding decode_access_token extract_bearer_token add_to_blacklist
  destroy_user_session r c =
      revoke_token (extract_bearer_token libraries.lower r.authorization)
        (record c { session = none })

  decode_access_token-revoked :
      (token : Text) (p : Payload) (c : Context store)
      → libraries.decode token ≡ some p
      → (is_blacklisted store p.jti c.revocations).0 ≡ true
      → (decode_access_token libraries store now token c.revocations).0 ≡ none
  unfolding decode_access_token
  decode_access_token-revoked token p c d e =
      rw (d, checked_claims-revoked libraries store now p c e)

  revoke_claims-named :
      (p : Payload) (c : Context store)
      → str_eq p.jti "" ≡ false
      → revoke_claims (some p) c
        ≡ (some p.jti, record c { revocations = (blacklist_token p.jti c.revocations).1 })
  revoke_claims-named p c named = rw named

  -- While Redis is reached, a token that is accepted and has a name is accepted no more after the
  -- session has been destroyed by a request that brings it.
  pub decode_access_token-destroy_user_session :
      (reached : Reached store) (r : Request) (c : Context store) (token : Text) (p : Payload)
      → 0 < jwt_expiry_hours
      → extract_bearer_token libraries.lower r.authorization ≡ some token
      → libraries.decode token ≡ some p
      → (decode_access_token libraries store now token c.revocations).0 ≡ some p
      → reached.Up (decode_access_token libraries store now token c.revocations).1.server
      → str_eq p.jti "" ≡ false
      → (decode_access_token libraries store now token (destroy_user_session r c).1.revocations).0
        ≡ none
  unfolding destroy_user_session
  decode_access_token-destroy_user_session reached r c token p hours bearer decoded accepted up
        named =
      let before = (decode_access_token libraries store now token c.revocations).1 in
      let seen =
        is_blacklisted-add_to_blacklist store reached before up p.jti (jwt_expiry_hours * 3600) none
          "logout" now named (omega (arith, hours)) in
      let ended = record c { session = none; revocations = before } in
      rw (bearer, accepted)
        (subst (λ x. (decode_access_token libraries store now token x.1.revocations).0 ≡ none)
          (sym (revoke_claims-named p ended named))
          (decode_access_token-revoked token p
            (record ended { revocations = (blacklist_token p.jti before).1 }) decoded seen.1))
