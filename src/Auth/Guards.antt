-- ===== src/Auth/Guards.antt =====
-- auth_middleware.py, the decorators `require_auth`, `require_admin`, `require_tier` and
-- `require_scope`: whether the view runs, and for whom. The audit log is left out.
use mathlib.Core.Path.{subst, ap}
use ai_chat_bot_v.Base.{
  ℕ, ◌≡◌, refl, Bool, true, false, not, Option, none, some, List, String, str_eq, any,
  if◌then◌else◌, &&-eq-true, arith, ltb, length,
}
use ai_chat_bot_v.Base.Text.{Text, codes}
use ai_chat_bot_v.Auth.{
  User, ApiKey, is_locked, is_expired, Payload, Libraries, Request, extract_bearer_token, Failure,
}
use ai_chat_bot_v.Auth.Resolve.{
  Context, Resolution, resolved, refused, Resolved, first_of, has_id, decode_access_token,
  token_user, by_claims, by_token, session_user, key_user, verify_api_key_value, by_record, by_key,
  by_key_header, by_session, by_bearer, resolve_user_from_request,
}
use ai_chat_bot_v.Auth.Resolve.Keys.{first_of-passes}
use ai_chat_bot_v.Blacklist.Store.{TokenStore}

-- What a decorator does: it answers 401 or 403, or it runs the view for a user.
pub data Access : Type 0 where
  unauthorized : Failure → Access
  forbidden : Access
  granted : User → Access

-- Answers and grants differ.
unauthorized-granted : {f : Failure} {u : User} → ¬ (unauthorized f ≡ granted u)
unauthorized-granted e = cc

abbrev who : Access → User → User
who (granted u) v = u
who (unauthorized f) v = v
who forbidden v = v

forbidden-granted : {u : User} → ¬ (forbidden ≡ granted u)
forbidden-granted e = cc

module _ (libraries : Libraries) (store : TokenStore) (now : ℕ) where
  -- The test that a user must pass.
  abbrev pub guarded_by : (User → Bool) → Resolved libraries store now → Access × Context store
  guarded_by p (refused f, c) = (unauthorized f, c)
  guarded_by p (resolved u, c) = (if p u then granted u else forbidden, c)

  unfoldable pub require_auth : Request → Context store → Access × Context store
  unfolding resolve_user_from_request
  require_auth r c = guarded_by (λ u. true) (resolve_user_from_request libraries store now r c)

  unfoldable pub require_admin : Request → Context store → Access × Context store
  unfolding resolve_user_from_request
  require_admin r c =
      guarded_by (λ u. u.is_admin) (resolve_user_from_request libraries store now r c)

  unfoldable pub require_tier :
      (allowed_tiers : List String) → Request → Context store → Access × Context store
  unfolding resolve_user_from_request
  require_tier allowed_tiers r c =
      guarded_by (λ u. any (str_eq u.tier) allowed_tiers)
        (resolve_user_from_request libraries store now r c)

  -- Whether all the scopes are there; where no API key has been used nothing is asked.
  unfoldable pub require_scope : (required_scopes : List String) → Context store → Bool
  require_scope required c = elim c.api_key_scopes [
    | none ↦ true
    | some scopes ↦ not (any (λ s. not (any (str_eq s) scopes)) required)
  ]

  -- A user who is there and active.
  abbrev pub Live : User → Type 0
  Live u = (u.is_active ≡ true) × (u.is_deleted ≡ false)

  abbrev Sound : Resolution → Type 0
  Sound (resolved u) = Live u
  Sound (refused f) = Unit

  if-Sound :
      (b : Bool) (x y : Resolved libraries store now)
      → (b ≡ true → Sound x.0)
      → (b ≡ false → Sound y.0)
      → Sound (if b then x else y).0
  if-Sound true x y f g = f refl
  if-Sound false x y f g = g refl

  not-false : (b : Bool) → not b ≡ false → b ≡ true
  not-false b e = ground (arith, e)

  not-true : (b : Bool) → not b ≡ true → b ≡ false
  not-true b e = ground (arith, e)

  found-Live :
      (u : User) (id : String) (users : List User)
      → first_of (has_id id) users ≡ some u
      → not u.is_active ≡ false
      → Live u
  found-Live u id users e active =
      let both =
        &&-eq-true (str_eq u.id id) (not u.is_deleted) (first_of-passes (has_id id) users u e) in
      (not-false u.is_active active, not-true u.is_deleted both.1)

  token_user-Sound :
      (o : Option User) (id : String) (c : Context store)
      → first_of (has_id id) c.users ≡ o
      → Sound (token_user libraries store now o id c).0
  token_user-Sound none id c e = tt
  token_user-Sound (some u) id c e =
      if-Sound (not u.is_active) _ _ (λ h. tt)
        (λ active. if-Sound (is_locked now u) _ _ (λ h. tt) (λ h. found-Live u id c.users e active))

  by_claims-Sound :
      (o : Option Payload) (c : Context store) → Sound (by_claims libraries store now o c).0
  by_claims-Sound none c = tt
  by_claims-Sound (some p) c =
      if-Sound (str_eq p.sub "") _ _ (λ h. tt)
        (λ h. token_user-Sound (first_of (has_id p.sub) c.users) p.sub c refl)

  session_user-Sound :
      (o : Option User) (id : String) (c : Context store)
      → first_of (has_id id) c.users ≡ o
      → Sound (session_user libraries store now o id c).0
  session_user-Sound none id c e = tt
  session_user-Sound (some u) id c e =
      if-Sound (not u.is_active) _ _ (λ h. tt)
        (λ active. if-Sound (is_locked now u) _ _ (λ h. tt) (λ h. found-Live u id c.users e active))

  key_user-Sound :
      (o : Option User) (k : ApiKey) (hash : String) (c : Context store)
      → first_of (has_id k.user_id) c.users ≡ o
      → Sound (key_user libraries store now o k hash c).0
  key_user-Sound none k hash c e = tt
  key_user-Sound (some u) k hash c e =
      if-Sound (not u.is_active) _ _ (λ h. tt) (λ active. found-Live u k.user_id c.users e active)

  by_record-Sound :
      (o : Option ApiKey) (key : String) (c : Context store)
      → Sound (by_record libraries store now o key c).0
  by_record-Sound none key c = tt
  by_record-Sound (some k) key c =
      if-Sound (is_expired now k) _ _ (λ h. tt)
        (λ h.
          if-Sound (not (verify_api_key_value libraries store now key k.key_hash)) _ _ (λ h'. tt)
            (λ h'.
              key_user-Sound (first_of (has_id k.user_id) c.users) k (libraries.sha256 key) c refl))

  by_key_header-Sound :
      (header : Option String) (c : Context store)
      → Sound (by_key_header libraries store now header c).0
  unfolding by_key
  by_key_header-Sound none c = tt
  by_key_header-Sound (some key) c =
      if-Sound (str_eq key "") _ _ (λ h. tt)
        (λ h. if-Sound (ltb (length (codes key)) 32) _ _ (λ h'. tt) (λ h'. by_record-Sound _ key c))

  by_session-Sound :
      (o header : Option String) (c : Context store)
      → Sound (by_session libraries store now o header c).0
  by_session-Sound none header c = by_key_header-Sound header c
  by_session-Sound (some id) header c =
      if-Sound (str_eq id "") _ _ (λ h. by_key_header-Sound header c)
        (λ h. session_user-Sound (first_of (has_id id) c.users) id c refl)

  by_bearer-Sound :
      (o : Option Text) (header : Option String) (c : Context store)
      → Sound (by_bearer libraries store now o header c).0
  unfolding by_token
  by_bearer-Sound none header c = by_session-Sound c.session header c
  by_bearer-Sound (some token) header c =
      let (claims, revocations') = decode_access_token libraries store now token c.revocations in
      by_claims-Sound claims (record c { revocations = revocations' })

  granted_if :
      (p : User → Bool) (b : Bool) (v u : User)
      → p v ≡ b
      → Live v
      → (if b then granted v else forbidden) ≡ granted u
      → (p u ≡ true) × Live u
  granted_if p true v u passes live e =
      subst (λ x. (p x ≡ true) × Live x) (ap (λ a. who a v) e) (passes, live)
  granted_if p false v u passes live e = absurd (forbidden-granted e)

  guarded_by-granted :
      (p : User → Bool) (r : Resolved libraries store now) (u : User)
      → Sound r.0
      → (guarded_by p r).0 ≡ granted u
      → (p u ≡ true) × Live u
  guarded_by-granted p (refused f, c) u h e = absurd (unauthorized-granted e)
  guarded_by-granted p (resolved v, c) u h e = granted_if p (p v) v u refl h e

-- Who the view of an administrator runs for is one: an administrator whose account is there and
-- active, however the request is authenticated.
pub require_admin-granted :
    (libraries : Libraries) (store : TokenStore) (now : ℕ) (r : Request) (c : Context store)
    (u : User)
    → (require_admin libraries store now r c).0 ≡ granted u
    → (u.is_admin ≡ true) × ((u.is_active ≡ true) × (u.is_deleted ≡ false))
unfolding require_admin resolve_user_from_request
require_admin-granted libraries store now r c u e =
    guarded_by-granted libraries store now (λ u. u.is_admin)
      (resolve_user_from_request libraries store now r c) u
      (by_bearer-Sound libraries store now (extract_bearer_token libraries.lower r.authorization)
        r.api_key c)
      e
