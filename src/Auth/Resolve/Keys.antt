-- ===== src/Auth/Resolve/Keys.antt =====
-- API keys: one hash is looked for and verified as if it were another.
use ai_chat_bot_v.Base.{
  ℕ, ◌≡◌, refl, sym, ap, ◌∙◌, Bool, true, false, not, ◌&&◌, Option, if◌then◌else◌, none, some, List,
  [], ◌∷◌, String, str_eq, ltb, length, Bool-cases, inl, inr, some-none, &&-eq-true, eq_iff,
}
use mathlib.Core.Path.{subst}
use mathlib.Core.Option.{some-injective}
use ai_chat_bot_v.Base.Text.{codes}
use ai_chat_bot_v.Auth.{
  ApiKey, is_expired, Libraries, Request, extract_bearer_token, Failure, no_credentials,
  api_key_too_short, api_key_not_found, api_key_expired, api_key_hash_mismatch,
}
use ai_chat_bot_v.Auth.Resolve.{
  Context, refused, Resolved, first_of, has_hash, or_false, verify_api_key_value, by_record, by_key,
  by_key_header, by_session, resolve_user_from_request,
}
use ai_chat_bot_v.Blacklist.Store.{TokenStore}

module _ {A : Type 0} (p : A → Bool) where
  first_if :
      (b : Bool) (x y : A) (o : Option A)
      → p x ≡ b
      → (o ≡ some y → p y ≡ true)
      → (if b then some x else o) ≡ some y
      → p y ≡ true
  first_if true x y o h later e = subst (λ z. p z ≡ true) (some-injective x y e) h
  first_if false x y o h later e = later e

  -- The row that is found passes the filter.
  pub first_of-passes : (xs : List A) (y : A) → first_of p xs ≡ some y → p y ≡ true
  first_of-passes [] y e = absurd (some-none (sym e))
  first_of-passes (x ∷ xs) y e = first_if (p x) x y (first_of p xs) refl (first_of-passes xs y) e

module _ (libraries : Libraries) (store : TokenStore) (now : ℕ)
    (other_hash : (key : String) → libraries.checkpw key (libraries.sha256 key) ≡ none) where
  -- Refused, and nothing has changed.
  abbrev Refuses : Context store → Resolved libraries store now → Type 0
  Refuses c r = (f : Failure) × (r ≡ (refused f, c))

  found_hash :
      (key : String) (keys : List ApiKey) (k : ApiKey)
      → first_of (has_hash (libraries.sha256 key)) keys ≡ some k
      → libraries.checkpw key k.key_hash ≡ none
  found_hash key keys k e =
      let same =
        &&-eq-true (str_eq k.key_hash (libraries.sha256 key)) (not k.is_deleted && k.is_active)
          (first_of-passes (has_hash (libraries.sha256 key)) keys k e) in
      rw ((eq_iff k.key_hash (libraries.sha256 key)).0 same.0) (other_hash key)

  refused_hash :
      (key hash : String)
      → libraries.checkpw key hash ≡ none
      → verify_api_key_value libraries store now key hash ≡ false
  refused_hash key hash e = ap or_false e

  by_record-Refuses :
      (o : Option ApiKey) (key : String) (c : Context store)
      → ((k : ApiKey) → o ≡ some k → libraries.checkpw key k.key_hash ≡ none)
      → Refuses c (by_record libraries store now o key c)
  by_record-Refuses none key c h = (api_key_not_found, refl)
  by_record-Refuses (some k) key c h = elim (Bool-cases (is_expired now k)) [
    | inl expired ↦ (api_key_expired, rw expired)
    | inr live ↦ (api_key_hash_mismatch, rw (live, refused_hash key k.key_hash (h k refl)))
  ]

  by_key-Refuses : (key : String) (c : Context store) → Refuses c (by_key libraries store now key c)
  unfolding by_key
  by_key-Refuses key c = elim (Bool-cases (ltb (length (codes key)) 32)) [
    | inl short ↦ (api_key_too_short, rw short)
    | inr long ↦
        let (f, e) =
          by_record-Refuses (first_of (has_hash (libraries.sha256 key)) c.keys) key c
            (λ k e. found_hash key c.keys k e) in
        (f, rw long e)
  ]

  by_key_header-Refuses :
      (header : Option String) (c : Context store)
      → Refuses c (by_key_header libraries store now header c)
  by_key_header-Refuses none c = (no_credentials, refl)
  by_key_header-Refuses (some key) c = elim (Bool-cases (str_eq key "")) [
    | inl blank ↦ (no_credentials, rw blank)
    | inr given ↦ let (f, e) = by_key-Refuses key c in (f, rw given e)
  ]

  by_session-none :
      (o header : Option String) (c : Context store)
      → o ≡ none
      → by_session libraries store now o header c ≡ by_key_header libraries store now header c
  by_session-none none header c e = refl
  by_session-none (some id) header c e = absurd (some-none e)

-- No API key authenticates: as bcrypt takes no SHA-256 sum for one of its hashes, a request that brings
-- neither a token nor a session is refused and changes nothing, whatever keys the table has and whichever the
-- request brings.
pub api_keys_never_work :
    (libraries : Libraries) (store : TokenStore) (now : ℕ) (r : Request) (c : Context store)
    → ((key : String) → libraries.checkpw key (libraries.sha256 key) ≡ none)
    → extract_bearer_token libraries.lower r.authorization ≡ none
    → c.session ≡ none
    → (f : Failure) × (resolve_user_from_request libraries store now r c ≡ (refused f, c))
unfolding resolve_user_from_request
api_keys_never_work libraries store now r c other_hash no_token no_session =
    let (f, e) = by_key_header-Refuses libraries store now other_hash r.api_key c in
    (
      f,
      rw no_token
          (by_session-none libraries store now other_hash c.session r.api_key c no_session ∙ e),
    )
