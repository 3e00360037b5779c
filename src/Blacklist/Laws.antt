-- ===== src/Blacklist/Laws.antt =====
-- What revocation means for the checks of a token, while Redis is reached.
use mathlib.Core.Path.{subst}
use ai_chat_bot_v.Base.{
  lt→ltb, true-false, ℕ, ◌+◌, ◌<◌, ◌≡◌, refl, sym, ap, ◌∙◌, Bool, true, false, Option, some, List,
  [], ◌∷◌, ◌++◌ as append, String, str_eq, ltb, any, if◌then◌else◌, map, length, arith, eq_iff,
  Bool-cases, Option-cases, inl, inr,
}
use ai_chat_bot_v.Base.Dict.{str_eq_refl}
use ai_chat_bot_v.Blacklist.{
  tracking, State, get_client, with_client, after_command, jti_key, revoke_all_key, thirty_days,
  revocation, revocations, note_revocation, add_to_blacklist, is_blacklisted,
  revoke_all_user_tokens, is_user_globally_revoked, revoke_tokens_list, stats_key,
}
use ai_chat_bot_v.Blacklist.Store.{
  TokenStore, Command, setex, Stored, number, text, stored_by, Reached,
}
use ai_chat_bot_v.RedisClient.Server.{Reply, reply}

-- A pipeline that begins with storing a key leaves something under it.
stored_first :
    (k : String) (ttl : ℕ) (v : Stored) (cs : List Command)
    → (w : Stored) × (stored_by k (setex k ttl v ∷ cs) ≡ some w)
stored_first k ttl v cs = elim (Option-cases (stored_by k cs)) [
  | inl nothing ↦ (v, rw (nothing, str_eq_refl k))
  | inr (w, later) ↦ (w, rw later)
]

stored_later :
    (k j : String) (ttl : ℕ) (v w : Stored) (cs : List Command)
    → stored_by k cs ≡ some w
    → stored_by k (setex j ttl v ∷ cs) ≡ some w
stored_later k j ttl v w cs e = rw e

stored_of_list :
    (j : String) (jtis : List String) (ttl : ℕ) (v : Stored) (cs : List Command)
    → any (str_eq j) jtis ≡ true
    → (w : Stored) × (stored_by (jti_key j) (append (map (λ i. setex (jti_key i) ttl v) jtis) cs)
        ≡ some w)
stored_of_list j [] ttl v cs h = absurd (true-false (sym h))
stored_of_list j (i ∷ jtis) ttl v cs h = elim (Bool-cases (str_eq j i)) [
  | inl same ↦
      subst
        (λ i.
          (w : Stored) × (stored_by (jti_key j)
              (setex (jti_key i) ttl v ∷ append (map (λ i. setex (jti_key i) ttl v) jtis) cs)
            ≡ some w))
        ((eq_iff j i).0 same)
        (stored_first (jti_key j) ttl v (append (map (λ i. setex (jti_key i) ttl v) jtis) cs))
  | inr other ↦
      let (w, e) =
        stored_of_list j jtis ttl v cs
          (subst (λ b. (if b then true else any (str_eq j) jtis) ≡ true) other h) in
      (
        w,
        stored_later (jti_key j) (jti_key i) ttl v w
            (append (map (λ i. setex (jti_key i) ttl v) jtis) cs) e,
      )
]

module _ (store : TokenStore) (reached : Reached store) where
  module _ (st : State store) (up : reached.Up st.server) where
    abbrev linked : State store
    linked = record { connected = true; server = st.server }

    get_client_up : get_client store st ≡ (true, linked)
    unfolding get_client
    get_client_up = elim (Bool-cases st.connected) [
      | inl yes' ↦ ground (arith, yes')
      | inr no' ↦ simp (get_client, no', reached.ping_up st.server up)
    ]

    with_client_up :
        {A B : Type 0} (f : A → B) (failed : B) (command : store.Server → Reply A × store.Server)
        (a : A)
        → (command st.server).0 ≡ reply a
        → with_client store f failed command st
          ≡ (f a, record { connected = true; server = (command st.server).1 })
    unfolding with_client
    with_client_up f failed command a e = simp (with_client, get_client_up, after_command, e)

    is_blacklisted_up :
        (jti : String) (v : Stored)
        → str_eq jti "" ≡ false
        → reached.value (jti_key jti) st.server ≡ some v
        → (is_blacklisted store jti st).0 ≡ true
    unfolding is_blacklisted
    is_blacklisted_up jti v named e = rw (
      is_blacklisted,
      named,
      with_client_up (λ n. ltb 0 n) false (store.exists (jti_key jti)) 1
          (rw (reached.exists_up (jti_key jti) st.server up, e)),
    )

    -- After a pipeline that stores something under the key of a token.
    stored-is_blacklisted :
        (jti : String) (v : Stored) (cs : List Command)
        → str_eq jti "" ≡ false
        → stored_by (jti_key jti) cs ≡ some v
        → reached.value (jti_key jti) (store.pipeline cs st.server).1 ≡ some v
    stored-is_blacklisted jti v cs named e =
        rw (reached.pipeline_value cs st.server (jti_key jti) up, e)

module _ (store : TokenStore) (reached : Reached store) (st : State store)
    (up : reached.Up st.server) where
  after : List Command → State store
  after cs = record { connected = true; server = (store.pipeline cs st.server).1 }

  pipeline_blacklists :
      (jti : String) (cs : List Command)
      → str_eq jti "" ≡ false
      → (w : Stored) × (stored_by (jti_key jti) cs ≡ some w)
      → (is_blacklisted store jti (after cs)).0 ≡ true
  unfolding after
  pipeline_blacklists jti cs named (w, e) =
      is_blacklisted_up store reached (after cs) (reached.pipeline_stays cs st.server up) jti w
        named (stored-is_blacklisted store reached st up jti w cs named e)

  pipeline_done :
      {B : Type 0} (f : Bool → B) (failed : B) (cs : List Command)
      → with_client store f failed (store.pipeline cs) st ≡ (f true, after cs)
  unfolding after
  pipeline_done f failed cs =
      with_client_up store reached st up f failed (store.pipeline cs) true
        (reached.pipeline_up cs st.server up)

  -- While Redis is reached, revoking a token that has a name and has not expired succeeds, and the
  -- check that follows refuses the token.
  pub is_blacklisted-add_to_blacklist :
      (jti : String) (expires_in : ℕ) (user : Option String) (reason : String) (now : ℕ)
      → str_eq jti "" ≡ false
      → 0 < expires_in
      → ((add_to_blacklist store jti expires_in user reason now st).0 ≡ true)
        × ((is_blacklisted store jti (add_to_blacklist store jti expires_in user reason now st).1).0
            ≡ true)
  unfolding add_to_blacklist after
  is_blacklisted-add_to_blacklist jti expires_in user reason now named alive =
      let cs = revocation store jti expires_in user reason now in
      let done : add_to_blacklist store jti expires_in user reason now st ≡ (true, after cs) =
        rw (named, lt→ltb 0 expires_in alive) (pipeline_done (λ d. true) false cs) in
      rw done (
        refl,
        pipeline_blacklists jti cs named (
            stored_first (jti_key jti) (expires_in + 60) (text reason)
              (tracking store jti expires_in user now)),
      )

  -- While Redis is reached, after a list of tokens is revoked the check that follows refuses any of
  -- them that has a name.
  pub is_blacklisted-revoke_tokens_list :
      (jtis : List String) (jti : String) (expires_in : ℕ) (user : Option String) (reason : String)
      → any (str_eq jti) jtis ≡ true
      → str_eq jti "" ≡ false
      → (is_blacklisted store jti (revoke_tokens_list store jtis expires_in user reason st).1).0
        ≡ true
  unfolding revoke_tokens_list after
  is_blacklisted-revoke_tokens_list [] jti expires_in user reason h named =
      absurd (true-false (sym h))
  is_blacklisted-revoke_tokens_list (i ∷ jtis) jti expires_in user reason h named =
      let cs = revocations store (i ∷ jtis) expires_in user reason in
      let done = pipeline_done (λ d. length (i ∷ jtis)) 0 cs in
      rw done (
        pipeline_blacklists jti cs named
          (stored_of_list jti (i ∷ jtis) (expires_in + 60) (text reason) _ h))

  module _ (user : String) (now : ℕ) where
    abbrev stored : store.Server
    stored = (store.setex (revoke_all_key user) thirty_days (number now) st.server).1

    abbrev noted : State store
    noted = record {
      connected = true;
      server = (store.hincrby stats_key "bulk_revocations" 1 stored).1;
    }

    stored_up : reached.Up stored
    stored_up = reached.setex_stays (revoke_all_key user) thirty_days (number now) st.server up

    note_revocation_up :
        note_revocation store user now st.server
        ≡ store.hincrby stats_key "bulk_revocations" 1 stored
    note_revocation_up = simp (
      note_revocation,
      reached.setex_up (revoke_all_key user) thirty_days (number now) st.server up,
    )

    revoke_all_up : revoke_all_user_tokens store user now st ≡ (true, noted)
    unfolding revoke_all_user_tokens
    revoke_all_up =
        let (m, e) = reached.hincrby_up stats_key "bulk_revocations" 1 stored stored_up in
        let at : store.Server → Bool × State store =
          λ s. (true, record { connected = true; server = s }) in
        with_client_up store reached st up (λ n. true) false (note_revocation store user now) m
          (ap (λ p. p.0) note_revocation_up ∙ e)
        ∙ ap (λ p. at p.1) note_revocation_up

    noted_value : reached.value (revoke_all_key user) noted.server ≡ some (number now)
    noted_value =
        reached.hincrby_value stats_key "bulk_revocations" 1 stored (revoke_all_key user) stored_up
        ∙ reached.setex_value (revoke_all_key user) thirty_days (number now) st.server up

    noted_check :
        (issued_at : ℕ)
        → (is_user_globally_revoked store user issued_at noted).0 ≡ ltb issued_at now
    unfolding is_user_globally_revoked get_client
    noted_check issued_at = rw (
      reached.get_up (revoke_all_key user) noted.server
          (reached.hincrby_stays stats_key "bulk_revocations" 1 stored stored_up),
      noted_value,
    )

  -- While Redis is reached, revoking all tokens of a user succeeds, and the check that follows
  -- refuses a token exactly if it was issued in an earlier second.
  pub is_user_globally_revoked-revoke_all_user_tokens :
      (user : String) (now issued_at : ℕ)
      → ((revoke_all_user_tokens store user now st).0 ≡ true)
        × ((is_user_globally_revoked store user issued_at
              (revoke_all_user_tokens store user now st).1).0
            ≡ ltb issued_at now)
  is_user_globally_revoked-revoke_all_user_tokens user now issued_at =
      rw (revoke_all_up user now) (refl, noted_check user now issued_at)
