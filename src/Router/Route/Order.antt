-- ===== src/Router/Route/Order.antt =====
-- Which models `route` may try: the configured ones whose provider is enabled, and none of a
-- provider whose circuit has tripped.
use ai_chat_bot_v.Base.{
  ℕ, ◌≤◌, ◌≡◌, ◌≢◌, sym, ◌∙◌, true, some, List, [], ◌∷◌, String, All, inl, inr, Option-cases,
  Bool-cases,
}
use ai_chat_bot_v.Router.Breaker.{Breaker, is_open}
use ai_chat_bot_v.Router.Breaker.Phases.{Tripped, is_open-Tripped, is_open_tripped}
use ai_chat_bot_v.Router.Providers.{Settings, ProviderConfig, find_config, Env, CostApi}
use ai_chat_bot_v.Router.Route.{State, select_available}
use ai_chat_bot_v.Router.Route.Fallback.{provider_of, config_provider}

-- A model of the registry whose provider is enabled.
abbrev pub Eligible : Settings → String → Type 0
Eligible s m = (c : ProviderConfig) × (find_config s m ≡ some c) × (c.enabled ≡ true)

module _ (env : Env) (costs : CostApi env.World) (s : Settings) where
  select : List String → State env costs s → List String × State env costs s
  select = select_available env costs s

  pub select_available-Eligible :
      (ms : List String) (w : env.World) (b : Breaker)
      → All (Eligible s) (select_available env costs s ms (w, b)).0
  unfolding select_available
  select_available-Eligible [] w b = tt
  select_available-Eligible (m ∷ ms) w b = elim (Option-cases (find_config s m)) [
    | inl unknown ↦ rw (unknown, select_available) (select_available-Eligible ms w b)
    | inr (c, known) ↦ elim (Bool-cases c.enabled) [
      | inr off ↦ rw (known, select_available, off) (select_available-Eligible ms w b)
      | inl on ↦
          let (now, w') = env.clock w in
          let (skip, b') = is_open c.provider now b in
          elim (Bool-cases skip) [
            | inl skipped ↦
                rw (known, select_available, on, skipped) (select_available-Eligible ms w' b')
            | inr kept ↦
                rw (known, select_available, on, kept)
                  ((c, known, on), select_available-Eligible ms w' b')
          ]
    ]
  ]

  -- While the clock reads no later than the timeout of a tripped circuit, no model of its provider
  -- is chosen, whatever the order asks for.
  pub select_skips-Tripped :
      (p : String) (t limit : ℕ) (ms : List String) (w : env.World) (b : Breaker)
      → Tripped p t limit b
      → ((w' : env.World) → (env.clock w').0 ≤ limit)
      → All (λ m. provider_of s m ≢ p) (select_available env costs s ms (w, b)).0
  unfolding select_available
  select_skips-Tripped p t limit [] w b h early = tt
  select_skips-Tripped p t limit (m ∷ ms) w b h early = elim (Option-cases (find_config s m)) [
    | inl unknown ↦ rw (unknown, select_available) (select_skips-Tripped p t limit ms w b h early)
    | inr (c, known) ↦ elim (Bool-cases c.enabled) [
      | inr off ↦ rw (known, select_available, off) (select_skips-Tripped p t limit ms w b h early)
      | inl on ↦
          let (now, w') = env.clock w in
          let (skip, b') = is_open c.provider now b in
          let rest =
            select_skips-Tripped p t limit ms w' b'
              (is_open-Tripped c.provider p t limit now b h (early w)) early in
          elim (Bool-cases skip) [
            | inl skipped ↦ rw (known, select_available, on, skipped) rest
            | inr kept ↦
                rw (known, select_available, on, kept)
                  (
                    (λ e. cc (
                      sym (config_provider s m c known) ∙ e,
                      is_open_tripped c.provider p t limit now b h (early w),
                      kept,
                    )),
                    rest,
                  )
          ]
    ]
  ]
