-- ===== src/Router/Route/Answers.antt =====
-- `route` as a whole: what it answers, that one working model is enough, and what the cost router
-- can make of the order.
use ai_chat_bot_v.Base.{ℕ, ◌≤◌, ◌≡◌, ◌≢◌, refl, sym, false, List, [], ◌∷◌, ◌++◌, String, All}
use mathlib.Core.Path.{subst}
use ai_chat_bot_v.Base.Text.{Text, strip, is_empty}
use ai_chat_bot_v.Router.Breaker.{Breaker}
use ai_chat_bot_v.Router.Breaker.Phases.{Tripped}
use ai_chat_bot_v.Router.Messages.{ChatMessage, build_messages}
use ai_chat_bot_v.Router.Providers.{Settings, ProviderConfig, Env, CostApi}
use ai_chat_bot_v.Router.Retry.{reply, call_with_retry}
use ai_chat_bot_v.Router.Route.{
  State, ModelResponse, Routed, ok, empty_prompt, no_providers, all_failed, key_error, Query,
  routing_order, select_available, run_models, request_for, route,
}
use ai_chat_bot_v.Router.Route.Fallback.{
  Explains, Configured, provider_of, try_models-Explains, try_models_live,
}
use ai_chat_bot_v.Router.Route.Order.{Eligible, select_available-Eligible, select_skips-Tripped}

module _ (env : Env) (costs : CostApi env.World) (s : Settings) (q : Query) (w : env.World)
    (b : Breaker) where
  abbrev start : ℕ
  start = (env.clock w).0

  abbrev messages : List ChatMessage
  messages = build_messages (strip q.prompt) q.system_prompt q.history

  abbrev order : List String × env.World
  order = routing_order env costs s q (strip q.prompt) (env.clock w).1

  -- The models that the request may try, and the state in which the loop begins.
  abbrev pub selection : List String × State env costs s
  selection = select_available env costs s order.0 (order.1, b)

  -- How a request ends, by the models that it may try and the state in which the loop begins.
  abbrev pub Answers : List String → State env costs s → Routed × State env costs s → Type 0
  Answers [] (w', b') (no_providers, st) = st.1 ≡ b'
  Answers [] (w', b') r = ⊥
  Answers (m ∷ ms) (w', b') r = Explains env costs s q messages start (m ∷ ms) [] w' b' r

  Configured-of_Eligible :
      (ms : List String) → All (Eligible s) ms → All (Configured env costs s q messages start) ms
  Configured-of_Eligible [] h = tt
  Configured-of_Eligible (m ∷ ms) ((c, known, on), h) = ((c, known), Configured-of_Eligible ms h)

  run_models-Answers :
      (ms : List String) (st : State env costs s)
      → All (Eligible s) ms
      → Answers ms st (run_models env costs s q messages start (ms, st))
  unfolding run_models
  run_models-Answers [] (w', b') h = refl
  run_models-Answers (m ∷ ms) (w', b') h =
      try_models-Explains env costs s q messages start (m ∷ ms) [] w' b'
        (Configured-of_Eligible (m ∷ ms) h)

  route_lem :
      is_empty (strip q.prompt) ≡ false
      → route env costs s q (w, b) ≡ run_models env costs s q messages start selection
  unfolding route
  route_lem says = rw says

  -- A request with a prompt ends in one of three ways: no model may be tried; or the first model that
  -- replies answers it, the text and the counts of tokens being those of its reply in the world that
  -- the failed calls before it left, and its name, provider, token sum, fallback mark and chain being
  -- those of that model, and the breaker holding one failure for each model before it and one success
  -- for its provider; or every model failed, is named in the error and has one failure in the breaker.
  pub route-Answers :
      is_empty (strip q.prompt) ≡ false
      → Answers selection.0 selection.1 (route env costs s q (w, b))
  route-Answers says = rw (route_lem says) (
      run_models-Answers selection.0 selection.1
        (select_available-Eligible env costs s order.0 order.1 b))

  -- Every call of the model's function comes back, after the retries, with a reply.
  abbrev pub Works : String → Type 0
  Works m =
      (c : ProviderConfig) (w' : env.World)
      → (t : Text) × (p : ℕ) × (n : ℕ) × ((call_with_retry env s.llm_max_retries s.llm_retry_delay
            (request_for env costs s q messages m c) w').0
          ≡ reply t p n)

  run_models_live :
      (m : String) (before after : List String) (st : State env costs s)
      → All (Configured env costs s q messages start) (before ++ m ∷ after)
      → Works m
      → (r : ModelResponse) × ((run_models env costs s q messages start (before ++ m ∷ after, st)).0
          ≡ ok r)
  unfolding run_models
  run_models_live m [] after (w', b') h works =
      try_models_live env costs s q messages start m [] after [] w' b' h works
  run_models_live m (x ∷ before) after (w', b') h works =
      try_models_live env costs s q messages start m (x ∷ before) after [] w' b' h works

  -- If a model that may be tried always replies, the request gets a response, whatever the models
  -- before it do.
  pub route_live :
      (m : String) (before after : List String)
      → is_empty (strip q.prompt) ≡ false
      → selection.0 ≡ before ++ m ∷ after
      → Works m
      → (r : ModelResponse) × ((route env costs s q (w, b)).0 ≡ ok r)
  route_live m before after says split works =
      let fit : All (Configured env costs s q messages start) (before ++ m ∷ after) =
        subst (All (Configured env costs s q messages start)) split (
          Configured-of_Eligible selection.0
            (select_available-Eligible env costs s order.0 order.1 b)) in
      let (r, e) = run_models_live m before after selection.1 fit works in
      (
        r,
        rw (route_lem says) (
            subst (λ ms. (run_models env costs s q messages start (ms, selection.1)).0 ≡ ok r)
              (sym split) e),
      )

  All-middle :
      (P : String → Type 0) (before after : List String) (m : String)
      → All P (before ++ m ∷ after)
      → P m
  All-middle P [] after m h = h.0
  All-middle P (x ∷ before) after m h = All-middle P before after m h.1

  Answers-provider :
      (p : String) (ms : List String) (st' : State env costs s) (r : ModelResponse) (a : Routed)
      (st : State env costs s)
      → Answers ms st' (a, st)
      → All (λ m. provider_of s m ≢ p) ms
      → a ≡ ok r
      → r.provider ≢ p
  Answers-provider p (m ∷ ms) (w', b') r (ok r') st h others e =
      let other : provider_of s r'.model ≢ p =
        All-middle (λ x. provider_of s x ≢ p) h.before h.after r'.model
          (subst (All (λ x. provider_of s x ≢ p)) h.split others) in
      λ same. other (cc (h.owner))
  Answers-provider p [] (w', b') r (ok r') st h others e = absurd h
  Answers-provider p ms st' r empty_prompt st h others e = cc
  Answers-provider p ms st' r no_providers st h others e = cc
  Answers-provider p ms st' r (all_failed t) st h others e = cc
  Answers-provider p ms st' r key_error st h others e = cc

  -- A provider whose circuit has tripped answers no request before its timeout.
  pub route_avoids-Tripped :
      (p : String) (t limit : ℕ) (r : ModelResponse)
      → is_empty (strip q.prompt) ≡ false
      → Tripped p t limit b
      → ((w' : env.World) → (env.clock w').0 ≤ limit)
      → (route env costs s q (w, b)).0 ≡ ok r
      → r.provider ≢ p
  route_avoids-Tripped p t limit r says trip early e =
      let res = route env costs s q (w, b) in
      Answers-provider p selection.0 selection.1 r res.0 res.1 (route-Answers says)
        (select_skips-Tripped env costs s p t limit order.0 order.1 b trip early) e
