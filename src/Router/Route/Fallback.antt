-- ===== src/Router/Route/Fallback.antt =====
-- What the fallback loop of `route` returns and leaves behind, on every branch.
use mathlib.Core.List.{append_assoc, append-nil}
use ai_chat_bot_v.Base.{
  ℕ, suc, ◌+◌, ◌≡◌, refl, sym, ◌∙◌, ap, none, some, List, [], ◌∷◌, ◌++◌, String, length, ltb, All,
  ◌⊎◌, inl, inr,
}
use ai_chat_bot_v.Base.Text.{Text}
use ai_chat_bot_v.Router.Breaker.{Breaker, record_success, record_failure}
use ai_chat_bot_v.Router.Breaker.Runs.{Event, succeed, fail, run}
use ai_chat_bot_v.Router.Messages.{ChatMessage}
use ai_chat_bot_v.Router.Providers.{Settings, ProviderConfig, find_config, Env, CostApi}
use ai_chat_bot_v.Router.Retry.{Outcome, reply, gave_up, fell_through, call_with_retry}
use ai_chat_bot_v.Router.Route.{
  ModelResponse, Routed, ok, empty_prompt, no_providers, all_failed, key_error, Query, State,
  respond, try_models, request_for,
}

-- The provider of a model of the registry.
unfoldable pub provider_of : Settings → String → String
provider_of s m = elim (find_config s m) [ none ↦ "" | some c ↦ c.provider ]

pub config_provider :
    (s : Settings) (m : String) (c : ProviderConfig)
    → find_config s m ≡ some c
    → provider_of s m ≡ c.provider
unfolding provider_of
config_provider s m c e = rw (e, provider_of)

-- One failure for each model, at the times given.
abbrev pub failures_of : Settings → List String → List ℕ → List Event
failures_of s (m ∷ ms) (t ∷ ts) = fail (provider_of s m) t ∷ failures_of s ms ts
failures_of s ms ts = []

module _ (env : Env) (costs : CostApi env.World) (s : Settings) (q : Query)
    (messages : List ChatMessage) (start : ℕ) where
  abbrev pub Configured : String → Type 0
  Configured m = (c : ProviderConfig) × (find_config s m ≡ some c)

  -- The call of a model, with its retries.
  abbrev pub attempt : String → ProviderConfig → env.World → Outcome × env.World
  attempt m c w =
      call_with_retry env s.llm_max_retries s.llm_retry_delay
        (request_for env costs s q messages m c) w

  -- The models that are called in turn, none of which replies, and the world that they leave.
  abbrev pub Failed : List String → env.World → env.World → Type 0
  Failed [] w w' = w ≡ w'
  Failed (m ∷ ms) w w' =
      (c : ProviderConfig) × (find_config s m ≡ some c)
      × (((attempt m c w).0 ≡ gave_up) ⊎ ((attempt m c w).0 ≡ fell_through))
      × Failed ms (env.clock (attempt m c w).1).1 w'

  -- The reply of the first model that gives one, after `before` have failed.
  pub record Answered (models tried : List String) (w : env.World) (b b' : Breaker)
      (r : ModelResponse) : Type 0 where
    pub before : List String
    pub after : List String
    pub times : List ℕ
    pub reached : env.World
    pub failed : Failed before w reached
    pub config : ProviderConfig
    pub known : find_config s r.model ≡ some config
    pub replied :
        (attempt r.model config reached).0 ≡ reply r.response r.prompt_tokens r.completion_tokens
    pub split : models ≡ before ++ r.model ∷ after
    pub chain : r.fallback_chain ≡ tried ++ (before ++ r.model ∷ [])
    pub marked : r.fallback_used ≡ ltb 1 (length r.fallback_chain)
    pub summed : r.total_tokens ≡ r.prompt_tokens + r.completion_tokens
    pub owner : r.provider ≡ provider_of s r.model
    pub timed : length times ≡ length before
    pub breaker : b' ≡ run (failures_of s before times ++ succeed r.provider ∷ []) b

  -- No model gave a reply.
  pub record Exhausted (models tried named : List String) (w : env.World) (b b' : Breaker)
      : Type 0 where
    pub reached : env.World
    pub failed : Failed models w reached
    pub times : List ℕ
    pub named_all : named ≡ tried ++ models
    pub timed : length times ≡ length models
    pub breaker : b' ≡ run (failures_of s models times) b

  abbrev pub Explains :
      List String → List String → env.World → Breaker → Routed × State env costs s → Type 0
  Explains models tried w b (ok r, st) = Answered models tried w b st.1 r
  Explains models tried w b (all_failed named, st) = Exhausted models tried named w b st.1
  Explains models tried w b (e, st) = ⊥

  -- What is left to try after a model that gave no reply.
  abbrev after_failure :
      String
      → ProviderConfig
      → List String
      → List String
      → env.World
      → Breaker
      → Routed × State env costs s
  after_failure m c ms tried w b =
      let (now, w2) = env.clock (attempt m c w).1 in
      try_models env costs s q messages start ms (tried ++ m ∷ [])
        (w2, record_failure c.provider now b)

  Outcome-cases :
      (o : Outcome)
      → ((t : Text) × (p : ℕ) × (n : ℕ) × (o ≡ reply t p n)) ⊎ ((o ≡ gave_up) ⊎ (o ≡ fell_through))
  Outcome-cases (reply t p n) = inl (t, p, n, refl)
  Outcome-cases gave_up = inr (inl refl)
  Outcome-cases fell_through = inr (inr refl)

  try_models-reply :
      (m : String) (ms tried : List String) (w : env.World) (b : Breaker) (c : ProviderConfig)
      (t : Text) (p n : ℕ)
      → find_config s m ≡ some c
      → (attempt m c w).0 ≡ reply t p n
      → try_models env costs s q messages start (m ∷ ms) tried (w, b) ≡ (
          let (r, w2) =
            respond env costs s q start (tried ++ m ∷ []) m c.provider t p n (attempt m c w).1 in
          (ok r, (w2, record_success c.provider b)))
  unfolding try_models
  try_models-reply m ms tried w b c t p n known e = rw (known, try_models, e)

  try_models_next :
      (m : String) (ms tried : List String) (w : env.World) (b : Breaker) (c : ProviderConfig)
      → find_config s m ≡ some c
      → ((attempt m c w).0 ≡ gave_up) ⊎ ((attempt m c w).0 ≡ fell_through)
      → try_models env costs s q messages start (m ∷ ms) tried (w, b)
        ≡ after_failure m c ms tried w b
  unfolding try_models
  try_models_next m ms tried w b c known (inl e) = rw (known, try_models, e)
  try_models_next m ms tried w b c known (inr e) = rw (known, try_models, e)

  Explains-next :
      (m : String) (c : ProviderConfig) (ms tried : List String) (w : env.World) (b : Breaker)
      (now : ℕ) (r : Routed × State env costs s)
      → find_config s m ≡ some c
      → ((attempt m c w).0 ≡ gave_up) ⊎ ((attempt m c w).0 ≡ fell_through)
      → Explains ms
          (tried ++ m ∷ [])
          (env.clock (attempt m c w).1).1
          (record_failure (provider_of s m) now b)
          r
      → Explains (m ∷ ms) tried w b r
  unfolding run
  Explains-next m c ms tried w b now (ok r, st) known e h = record {
    before = m ∷ h.before;
    after = h.after;
    times = now ∷ h.times;
    reached = h.reached;
    failed = (c, known, e, h.failed);
    config = h.config;
    known = h.known;
    replied = h.replied;
    split = ap (◌∷◌ m) h.split;
    chain = h.chain ∙ append_assoc tried (m ∷ []) (h.before ++ r.model ∷ []);
    marked = h.marked;
    summed = h.summed;
    owner = h.owner;
    timed = ap suc h.timed;
    breaker = h.breaker;
  }
  Explains-next m c ms tried w b now (all_failed named, st) known e h = record {
    times = now ∷ h.times;
    reached = h.reached;
    failed = (c, known, e, h.failed);
    named_all = h.named_all ∙ append_assoc tried (m ∷ []) ms;
    timed = ap suc h.timed;
    breaker = h.breaker;
  }
  Explains-next m c ms tried w b now (empty_prompt, st) known e h = h
  Explains-next m c ms tried w b now (no_providers, st) known e h = h
  Explains-next m c ms tried w b now (key_error, st) known e h = h

  pub try_models-Explains :
      (ms tried : List String) (w : env.World) (b : Breaker)
      → All Configured ms
      → Explains ms tried w b (try_models env costs s q messages start ms tried (w, b))
  unfolding run try_models respond
  try_models-Explains [] tried w b h = record {
    times = [];
    reached = w;
    failed = refl;
    named_all = sym (append-nil tried);
    timed = refl;
    breaker = refl;
  }
  try_models-Explains (m ∷ ms) tried w b ((c, known), h) = elim (Outcome-cases (attempt m c w).0) [
    | inl (t, p, n, e) ↦ rw (try_models-reply m ms tried w b c t p n known e) (record {
      before = [];
      after = ms;
      times = [];
      reached = w;
      failed = refl;
      config = c;
      known = known;
      replied = e;
      split = refl;
      chain = refl;
      marked = refl;
      summed = refl;
      owner = sym (config_provider s m c known);
      timed = refl;
      breaker = refl;
    })
    | inr e ↦
        let (now, w') = env.clock (attempt m c w).1 in
        rw (try_models_next m ms tried w b c known e) (
          Explains-next m c ms tried w b now _ known e (
            rw (config_provider s m c known)
              (try_models-Explains ms (tried ++ m ∷ []) w' (record_failure c.provider now b) h)))
  ]

  -- A model that always replies ends the loop with a response, whatever those before it do.
  pub try_models_live :
      (m : String) (before after tried : List String) (w : env.World) (b : Breaker)
      → All Configured (before ++ m ∷ after)
      → ((c : ProviderConfig) (w' : env.World)
          → (t : Text) × (p : ℕ) × (n : ℕ) × ((attempt m c w').0 ≡ reply t p n))
      → (r : ModelResponse) × ((try_models env costs s q messages start
            (before ++ m ∷ after)
            tried
            (w, b)).0
          ≡ ok r)
  try_models_live m [] after tried w b ((c, known), h) works =
      let (t, p, n, e) = works c w in
      (
        (respond env costs s q start (tried ++ m ∷ []) m c.provider t p n (attempt m c w).1).0,
        rw (try_models-reply m after tried w b c t p n known e),
      )
  try_models_live m (x ∷ before) after tried w b ((c, known), h) works =
      elim (Outcome-cases (attempt x c w).0) [
        | inl (t, p, n, e) ↦ (
          (respond env costs s q start (tried ++ x ∷ []) x c.provider t p n (attempt x c w).1).0,
          rw (try_models-reply x (before ++ m ∷ after) tried w b c t p n known e),
        )
        | inr e ↦
            let (now, w') = env.clock (attempt x c w).1 in
            let (r, found) =
              try_models_live m before after (tried ++ x ∷ []) w' (record_failure c.provider now b)
                h works in
            (r, rw (try_models_next x (before ++ m ∷ after) tried w b c known e) found)
      ]
