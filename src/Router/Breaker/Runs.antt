-- ===== src/Router/Breaker/Runs.antt =====
-- Whole histories of a breaker: the refinement along any sequence of calls, and how long a tripped
-- provider is skipped.
use ai_chat_bot_v.Base.{
  ℕ, ◌+◌, ◌≤◌, ◌<◌, ◌≡◌, refl, ◌≢◌, Bool, true, false, List, [], ◌∷◌, ◌++◌, String, str_eq,
  if◌then◌else◌, seconds, arith, eq_iff, All, ◌⊎◌,
}
use ai_chat_bot_v.Router.Breaker.{Breaker, is_open, record_success, record_failure}
use ai_chat_bot_v.Router.Breaker.Phases.{
  Phase, closed, opened, phase, after_failure, query, phase-record_success, phase-record_failure,
  phase-is_open, is_open-query,
}

pub data Event : Type 0 where
  succeed : String → Event
  fail : String → ℕ → Event
  ask : String → ℕ → Event

pub step : Event → Breaker → Breaker
step (succeed p) b = record_success p b
step (fail p now) b = record_failure p now b
step (ask p now) b = (is_open p now b).1

unfoldable pub run : List Event → Breaker → Breaker
unfolding step
run [] b = b
run (e ∷ es) b = run es (step e b)

-- What `is_open` answers, along the events, where it is asked about `q`.
module _ (q : String) where
  unfoldable answer : Event → Breaker → List Bool
  answer (succeed p) b = []
  answer (fail p now) b = []
  answer (ask p now) b = if str_eq q p then (is_open p now b).0 ∷ [] else []

  unfoldable pub answers : List Event → Breaker → List Bool
  unfolding answer step
  answers [] b = []
  answers (e ∷ es) b = answer e b ++ answers es (step e b)

module _ (threshold timeout : ℕ) (q : String) where
  -- What one event does to the phase of the provider `q`.
  pub move : Event → Phase → Phase
  move (succeed p) f = if str_eq q p then closed 0 else f
  move (fail p now) f = if str_eq q p then after_failure threshold now f else f
  move (ask p now) f = if str_eq q p then (query threshold timeout now f).1 else f

  pub moves : List Event → Phase → Phase
  moves [] f = f
  moves (e ∷ es) f = moves es (move e f)

  -- What the automaton answers where it is asked whether `q` is to be skipped.
  unfoldable reply : Event → Phase → List Bool
  reply (succeed p) f = []
  reply (fail p now) f = []
  reply (ask p now) f = if str_eq q p then (query threshold timeout now f).0 ∷ [] else []

  unfoldable pub replies : List Event → Phase → List Bool
  unfolding reply move
  replies [] f = []
  replies (e ∷ es) f = reply e f ++ replies es (move e f)

-- The parameters of a breaker, which no operation changes.
abbrev Tuned : ℕ → ℕ → Breaker → Type 0
Tuned threshold timeout b = (b.failure_threshold ≡ threshold) × (b.recovery_timeout ≡ timeout)

step-Tuned :
    (threshold timeout : ℕ) (e : Event) (b : Breaker)
    → Tuned threshold timeout b
    → Tuned threshold timeout (step e b)
unfolding step record_success record_failure is_open
step-Tuned threshold timeout (succeed p) b h = h
step-Tuned threshold timeout (fail p now) b h = ground arith
step-Tuned threshold timeout (ask p now) b h = ground arith

phase-step :
    (threshold timeout : ℕ) (q : String) (e : Event) (b : Breaker)
    → 0 < threshold
    → Tuned threshold timeout b
    → phase q (step e b) ≡ move threshold timeout q e (phase q b)
unfolding step move
phase-step threshold timeout q (succeed p) b pos (et, eo) = phase-record_success p q b (omega arith)
phase-step threshold timeout q (fail p now) b pos (et, eo) =
    rw (← et) (phase-record_failure p q b (omega arith) now)
phase-step threshold timeout q (ask p now) b pos (et, eo) =
    rw (← et, ← eo) (phase-is_open p q b (omega arith) now)

answer_lem :
    (threshold timeout : ℕ) (q : String) (e : Event) (b : Breaker)
    → Tuned threshold timeout b
    → answer q e b ≡ reply threshold timeout q e (phase q b)
unfolding answer reply
answer_lem threshold timeout q (succeed p) b h = refl
answer_lem threshold timeout q (fail p now) b h = refl
answer_lem threshold timeout q (ask p now) b (et, eo) =
    ground (arith, eq_iff q p, is_open-query p now b)

module _ (threshold timeout : ℕ) (q : String) where
  -- After any sequence of calls, about any providers, the phase of each provider is what the automaton
  -- makes of the calls about that provider, and along the sequence `is_open` has answered every question
  -- about that provider as the automaton answers it, for a breaker with the automaton's threshold, which
  -- is not 0, and its timeout.
  pub phase-run :
      (es : List Event) (b : Breaker)
      → 0 < threshold
      → b.failure_threshold ≡ threshold
      → b.recovery_timeout ≡ timeout
      → (phase q (run es b) ≡ moves threshold timeout q es (phase q b))
        × (answers q es b ≡ replies threshold timeout q es (phase q b))
  unfolding run moves answers replies
  phase-run [] b pos et eo = (refl, refl)
  phase-run (e ∷ es) b pos et eo =
      let (et', eo') = step-Tuned threshold timeout e b (et, eo) in
      let (moved, answered) = phase-run es (step e b) pos et' eo' in
      let here = phase-step threshold timeout q e b pos (et, eo) in
      (rw (moved, here), rw (answer_lem threshold timeout q e b (et, eo), answered, here))

-- Events that are not about `q`, or that ask for it by the time `until`.
abbrev Quiet : String → ℕ → Event → Type 0
Quiet q until (succeed p) = p ≢ q
Quiet q until (fail p now) = p ≢ q
Quiet q until (ask p now) = (p ≢ q) ⊎ (now ≤ until)

moves-Quiet :
    (threshold timeout t : ℕ) (q : String) (es : List Event)
    → All (Quiet q (t + seconds timeout)) es
    → moves threshold timeout q es (opened t) ≡ opened t
unfolding moves move query
moves-Quiet threshold timeout t q [] h = refl
moves-Quiet threshold timeout t q (succeed p ∷ es) h =
    ground (arith, eq_iff q p, moves-Quiet threshold timeout t q es h.1)
moves-Quiet threshold timeout t q (fail p now ∷ es) h =
    ground (arith, eq_iff q p, moves-Quiet threshold timeout t q es h.1)
moves-Quiet threshold timeout t q (ask p now ∷ es) h =
    ground (arith, eq_iff q p, moves-Quiet threshold timeout t q es h.1)

run-Tuned :
    (threshold timeout : ℕ) (es : List Event) (b : Breaker)
    → Tuned threshold timeout b
    → Tuned threshold timeout (run es b)
unfolding run
run-Tuned threshold timeout [] b h = h
run-Tuned threshold timeout (e ∷ es) b h =
    run-Tuned threshold timeout es (step e b) (step-Tuned threshold timeout e b h)

-- The breaker `b`, in which the circuit of `q` tripped at `t`, after the events `es`, which are about
-- other providers or ask for `q` within the timeout.
module _ (t now : ℕ) (q : String) (es : List Event) (b : Breaker)
    (positive : 0 < b.failure_threshold) (trip : phase q b ≡ opened t)
    (quiet : All (Quiet q (t + seconds b.recovery_timeout)) es) where
  still_opened : phase q (run es b) ≡ opened t
  still_opened =
      rw ((phase-run b.failure_threshold b.recovery_timeout q es b positive refl refl).0, trip)
        (moves-Quiet b.failure_threshold b.recovery_timeout t q es quiet)

  tuned : Tuned b.failure_threshold b.recovery_timeout (run es b)
  tuned = run-Tuned b.failure_threshold b.recovery_timeout es b (refl, refl)

  -- A provider whose circuit tripped at `t` is skipped until `t` plus the timeout, whatever happens
  -- to the other providers and however often it is asked for.
  pub tripped_is_skipped :
      now ≤ t + seconds b.recovery_timeout → (is_open q now (run es b)).0 ≡ true
  unfolding query
  tripped_is_skipped early = rw (is_open-query, still_opened) (ground (arith, tuned))

  -- The first query after the timeout lets one trial through, and a failure of that trial trips the
  -- circuit again at once, at its own time.
  pub tripped_half_opens :
      (trial : ℕ)
      → t + seconds b.recovery_timeout < now
      → let (skip, c) = is_open q now (run es b) in
        (skip ≡ false) × (phase q (record_failure q trial c) ≡ opened trial)
  unfolding query after_failure step
  tripped_half_opens trial late =
      let c = run es b in
      let c' = (is_open q now c).1 in
      let kept = step-Tuned b.failure_threshold b.recovery_timeout (ask q now) c tuned in
      let posc : 0 < c.failure_threshold = omega (arith, tuned.0) in
      let posc' : 0 < c'.failure_threshold = omega (arith, kept.0) in
      ground (
        arith,
        is_open-query q now c,
        still_opened,
        tuned,
        kept,
        eq_iff q q,
        phase-is_open q q c posc now,
        phase-record_failure q q c' posc' trial,
      )
