-- ===== src/Auth/Resolve/Revoked.antt =====
-- A token that is revoked: the middleware with the blacklist.
use ai_chat_bot_v.Base.{
  ℕ, ◌<◌, ◌≡◌, true, false, Option, none, some, String, str_eq, Bool-cases, inl, inr,
}
use ai_chat_bot_v.Base.Text.{Text}
use ai_chat_bot_v.Auth.{Payload, Libraries, Request, extract_bearer_token, invalid_or_expired_jwt}
use ai_chat_bot_v.Auth.Resolve.{
  Context, refused, checked_claims, decode_access_token, by_token, resolve_user_from_request,
}
use ai_chat_bot_v.Blacklist.{add_to_blacklist, is_blacklisted}
use ai_chat_bot_v.Blacklist.Laws.{is_blacklisted-add_to_blacklist}
use ai_chat_bot_v.Blacklist.Store.{TokenStore, Reached}

-- The context after a token's revocation.
abbrev pub revoke :
    (store : TokenStore) (jti : String) (expires_in : ℕ) (user : Option String) (reason : String)
    (now : ℕ)
    → Context store
    → Context store
revoke store jti expires_in user reason now c = record c {
  revocations = (add_to_blacklist store jti expires_in user reason now c.revocations).1;
}

module _ (libraries : Libraries) (store : TokenStore) (now : ℕ) where
  pub checked_claims-revoked :
      (p : Payload) (c : Context store)
      → (is_blacklisted store p.jti c.revocations).0 ≡ true
      → (checked_claims libraries store now (some p) c.revocations).0 ≡ none
  checked_claims-revoked p c e = elim (Bool-cases (str_eq p.token_type "access")) [
    | inl access ↦ rw (access, e)
    | inr other ↦ rw other
  ]

  by_token-revoked :
      (token : Text) (p : Payload) (c : Context store)
      → libraries.decode token ≡ some p
      → (is_blacklisted store p.jti c.revocations).0 ≡ true
      → (by_token libraries store now token c).0 ≡ refused invalid_or_expired_jwt
  unfolding by_token decode_access_token
  by_token-revoked token p c d e = rw (d, checked_claims-revoked p c e)

-- While Redis is reached: once a token that has a name has been revoked for some time, a request that
-- brings it is refused, whatever else it brings and whoever the token names.
pub revoked_token_refused :
    (libraries : Libraries) (store : TokenStore) (reached : Reached store) (now : ℕ) (r : Request)
    (c : Context store) (token : Text) (p : Payload) (expires_in : ℕ) (user : Option String)
    (reason : String) (revoked_at : ℕ)
    → reached.Up c.revocations.server
    → extract_bearer_token libraries.lower r.authorization ≡ some token
    → libraries.decode token ≡ some p
    → str_eq p.jti "" ≡ false
    → 0 < expires_in
    → (resolve_user_from_request libraries store now r
        (revoke store p.jti expires_in user reason revoked_at c)).0
      ≡ refused invalid_or_expired_jwt
unfolding resolve_user_from_request
revoked_token_refused libraries store reached now r c token p expires_in user reason revoked_at up
      bearer decoded named alive =
    let seen =
      is_blacklisted-add_to_blacklist store reached c.revocations up p.jti expires_in user reason
        revoked_at named alive in
    rw bearer (
      by_token-revoked libraries store now token p
        (revoke store p.jti expires_in user reason revoked_at c) decoded seen.1)
