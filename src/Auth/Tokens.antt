-- ===== src/Auth/Tokens.antt =====
-- auth_middleware.py, `generate_access_token`, `generate_refresh_token` and `generate_token_pair`: the
-- claims of the tokens. How `jwt.encode` signs them and what kinds of values claims have are
-- parameters; the identifiers are those that `uuid4` gives.
use mathlib.Core.Path.{subst}
use ai_chat_bot_v.Base.{
  ℕ, ◌+◌, ◌*◌, ◌≡◌, refl, Bool, true, false, not, Option, none, some, List, [], ◌∷◌, String, str_eq,
  any, filter, if◌then◌else◌, Bool-cases, inl, inr, true-false, some-none, eq_iff, sym, ◌∙◌,
}
use ai_chat_bot_v.Base.Dict.{Dict, lookup, insert, lookup-insert}

-- The values of claims, and the signed token of some claims.
pub record Signing : Type 1 where
  pub Value : Type 0
  pub text : String → Value
  pub flag : Bool → Value
  pub time : ℕ → Value
  pub encode : Dict Value → String

-- The claims that extra ones do not replace.
abbrev pub protected_claims : List String
protected_claims = "sub" ∷ "jti" ∷ "iss" ∷ "aud" ∷ "iat" ∷ "exp" ∷ "type" ∷ []

module _ {V : Type 0} where
  -- `payload.update(extras)`
  unfoldable pub update : Dict V → Dict V → Dict V
  unfolding insert
  update payload [] = payload
  update payload ((k, v) ∷ extras) = update (insert k v payload) extras

  unfoldable pub safe_extras : Dict V → Dict V
  safe_extras extras = filter (λ e. not (any (str_eq e.0) protected_claims)) extras

module _ (signing : Signing) (jwt_expiry_hours jwt_refresh_expiry_days : ℕ) (now : ℕ) where
  open signing use {Value}

  -- The claims of an access token; times are in seconds.
  unfoldable pub access_claims :
      (jti user_id username tier : String) (is_admin : Bool) (extra_claims : Dict Value)
      → Dict Value
  unfolding update safe_extras
  access_claims jti user_id username tier is_admin extra_claims =
      update
        (("sub", signing.text user_id)
          ∷ ("username", signing.text username)
          ∷ ("tier", signing.text tier)
          ∷ ("is_admin", signing.flag is_admin)
          ∷ ("jti", signing.text jti)
          ∷ ("iss", signing.text "devmentor.ai")
          ∷ ("aud", signing.text "devmentor-api")
          ∷ ("iat", signing.time now)
          ∷ ("exp", signing.time (now + jwt_expiry_hours * 3600))
          ∷ ("type", signing.text "access")
          ∷ [])
        (safe_extras extra_claims)

  abbrev pub refresh_claims : (jti user_id : String) → Dict Value
  refresh_claims jti user_id =
      ("sub", signing.text user_id)
      ∷ ("jti", signing.text jti)
      ∷ ("iss", signing.text "devmentor.ai")
      ∷ ("aud", signing.text "devmentor-refresh")
      ∷ ("iat", signing.time now)
      ∷ ("exp", signing.time (now + jwt_refresh_expiry_days * 86_400))
      ∷ ("type", signing.text "refresh")
      ∷ []

  -- An access token, a refresh token, and the seconds after which the first expires.
  unfoldable pub generate_token_pair :
      (jti refresh_jti user_id username tier : String) (is_admin : Bool) → String × String × ℕ
  unfolding access_claims
  generate_token_pair jti refresh_jti user_id username tier is_admin = (
    signing.encode (access_claims jti user_id username tier is_admin []),
    signing.encode (refresh_claims refresh_jti user_id),
    jwt_expiry_hours * 3600,
  )

module _ (k : String) (is_dropped : String → Bool) (dropped : is_dropped k ≡ true) where
  other_name : (j : String) → is_dropped j ≡ false → str_eq k j ≡ false
  other_name j kept = elim (Bool-cases (str_eq k j)) [
    | inr other ↦ other
    | inl same ↦ absurd (
        true-false
          (sym dropped ∙ subst (λ x. is_dropped x ≡ false) (sym ((eq_iff k j).0 same)) kept))
  ]

module _ {V : Type 0} (k : String) where
  not_here :
      (b : Bool) (v : V) (o : Option V)
      → (if b then some v else o) ≡ none
      → (b ≡ false) × (o ≡ none)
  not_here true v o h = absurd (some-none h)
  not_here false v o h = (refl, h)

  lookup-update :
      (payload extras : Dict V)
      → lookup k extras ≡ none
      → lookup k (update payload extras) ≡ lookup k payload
  unfolding update
  lookup-update payload [] h = refl
  lookup-update payload ((j, v) ∷ extras) h =
      let (other, rest) = not_here (str_eq k j) v (lookup k extras) h in
      lookup-update (insert j v payload) extras rest ∙ rw (lookup-insert k j v payload, other)

  module _ (is_dropped : String → Bool) (dropped : is_dropped k ≡ true) where
    lookup-filter : (extras : Dict V) → lookup k (filter (λ e. not (is_dropped e.0)) extras) ≡ none
    lookup-filter [] = refl
    lookup-filter ((j, v) ∷ extras) = elim (Bool-cases (is_dropped j)) [
      | inl out ↦ rw out (lookup-filter extras)
      | inr kept ↦ rw (kept, other_name k is_dropped dropped j kept) (lookup-filter extras)
    ]

  -- Whatever extra claims are given, a protected claim has the value that it had.
  pub lookup-safe_extras :
      (payload extras : Dict V)
      → any (str_eq k) protected_claims ≡ true
      → lookup k (update payload (safe_extras extras)) ≡ lookup k payload
  unfolding safe_extras
  lookup-safe_extras payload extras h =
      lookup-update payload (safe_extras extras)
        (lookup-filter (λ j. any (str_eq j) protected_claims) h extras)
