-- ===== src/Router/Retry/Laws.antt =====
-- The retry loop against a provider whose answers are written down in advance.
use native.Mathlib.Nat.{pow-suc}
use native.Mathlib.Numerals.{add-one}
use ai_chat_bot_v.Base.{
  ℕ, zero, suc, ◌+◌, ◌==◌, ◌*◌, ◌^◌, ◌<◌, ◌≡◌, refl, List, [], ◌∷◌, ◌++◌, All, length, arith, ◌∙◌,
  false,
}
use ai_chat_bot_v.Base.Text.{Text}
use ai_chat_bot_v.Router.Providers.{Env, Request, Attempt, replied, timed_out, http_status, failed}
use ai_chat_bot_v.Router.Retry.{reply, gave_up, backoff, attempts_from, call_with_retry}

-- A provider that gives the answers in turn, then fails; the time slept and the calls are counted.
pub record Tape : Type 0 where
  pub answers : List Attempt
  pub slept : ℕ
  pub calls : ℕ

abbrev answer_next : List Attempt → Attempt
answer_next [] = failed
answer_next (a ∷ early) = a

abbrev answers_left : List Attempt → List Attempt
answers_left [] = []
answers_left (a ∷ early) = early

abbrev pub scripted : Env
scripted = record {
  World = Tape;
  clock = λ w. (w.slept, w);
  call = λ req w.
      (answer_next w.answers, record w { answers = answers_left w.answers; calls = w.calls + 1 });
  sleep = λ n w. record w { slept = w.slept + n };
}

-- An answer after which the loop backs off by the attempt's number.
abbrev pub Transient : Attempt → Type 0
Transient timed_out = Unit
Transient failed = Unit
Transient a = ⊥

pow_double : (base a : ℕ) → base * 2 ^ (a + 1) ≡ base * 2 ^ a + base * 2 ^ a
pow_double base a = rw (add-one, pow-suc) (omega arith)

pow_shift : (base a k : ℕ) → base * 2 ^ (a + 1 + k) ≡ base * 2 ^ (a + suc k)
pow_shift base a k = let e : a + 1 + k ≡ a + suc k = omega arith in rw e

from_zero :
    (base slept slept' k : ℕ)
    → slept' + base * 2 ^ 0 ≡ slept + base * 2 ^ (0 + k)
    → slept' + base ≡ slept + base * 2 ^ k
from_zero base slept slept' k h =
    let e : 0 + k ≡ k = omega arith in
    let h' : slept' + base * 2 ^ 0 ≡ slept + base * 2 ^ k = rw (← e) h in omega (arith, h')

module _ (base : ℕ) (req : Request) where
  -- The loop on a tape that begins with a transient answer.
  retry-Transient :
      (a : Attempt) (rest : List Attempt) (attempt left slept calls : ℕ)
      → Transient a
      → 0 < left
      → attempts_from scripted
          (suc left)
          attempt
          base
          req
          (record { answers = a ∷ rest; slept = slept; calls = calls })
        ≡ attempts_from scripted left
            (attempt + 1)
            base
            req
            (record { answers = rest; slept = slept + backoff base attempt; calls = calls + 1 })
  unfolding attempts_from
  retry-Transient timed_out rest attempt left slept calls h lt =
      let more : (left == 0) ≡ false = ground arith in rw more
  retry-Transient failed rest attempt left slept calls h lt =
      let more : (left == 0) ≡ false = ground arith in rw more
  retry-Transient (replied t p c) rest attempt left slept calls h lt = absurd h
  retry-Transient (http_status n r) rest attempt left slept calls h lt = absurd h

  abbrev Replies :
      List Attempt → List Attempt → Text → ℕ → ℕ → (attempt left slept calls : ℕ) → Type 0
  Replies early rest text p c attempt left slept calls =
      (w : Tape) × (attempts_from scripted left attempt base req
          (record { answers = early ++ replied text p c ∷ rest; slept = slept; calls = calls })
        ≡ (reply text p c, w))
      × (w.answers ≡ rest)
      × (w.calls ≡ calls + length early + 1)
      × (w.slept + base * 2 ^ attempt ≡ slept + base * 2 ^ (attempt + length early))

  reply_now :
      (rest : List Attempt) (text : Text) (p c attempt left slept calls : ℕ)
      → Replies [] rest text p c attempt (suc left) slept calls
  unfolding attempts_from
  reply_now rest text p c attempt left slept calls =
      let e : attempt + 0 ≡ attempt = omega arith in
      (record { answers = rest; slept = slept; calls = calls + 1 }, refl, refl, omega arith, rw e)

  reply_from :
      (early rest : List Attempt) (text : Text) (p c attempt left slept calls : ℕ)
      → All Transient early
      → length early < left
      → Replies early rest text p c attempt left slept calls
  reply_from early rest text p c attempt zero slept calls h lt = elim lt [ ]
  reply_from [] rest text p c attempt (suc left) slept calls h lt =
      reply_now rest text p c attempt left slept calls
  reply_from (a ∷ early) rest text p c attempt (suc left) slept calls h lt =
      let (w, e, kept, called, waited) =
        reply_from early rest text p c (attempt + 1) left (slept + backoff base attempt) (calls + 1)
          h.1 (omega arith) in
      (
        w,
        retry-Transient a _ attempt left slept calls h.0 (omega arith) ∙ e,
        kept,
        omega (arith, called),
        omega (arith, waited, pow_double base attempt, pow_shift base attempt (length early)),
      )

  give_up_now :
      (a : Attempt) (attempt slept calls : ℕ)
      → Transient a
      → attempts_from scripted 1 attempt base req
          (record { answers = a ∷ []; slept = slept; calls = calls })
        ≡ (gave_up, record { answers = []; slept = slept; calls = calls + 1 })
  unfolding attempts_from
  give_up_now timed_out attempt slept calls h = refl
  give_up_now failed attempt slept calls h = refl
  give_up_now (replied t p c) attempt slept calls h = absurd h
  give_up_now (http_status n r) attempt slept calls h = absurd h

  give_up_from :
      (a : Attempt) (early : List Attempt) (attempt slept calls : ℕ)
      → Transient a
      → All Transient early
      → (w : Tape) × (attempts_from scripted
            (suc (length early))
            attempt
            base
            req
            (record { answers = a ∷ early; slept = slept; calls = calls })
          ≡ (gave_up, w))
        × (w.calls ≡ calls + length early + 1)
        × (w.slept + base * 2 ^ attempt ≡ slept + base * 2 ^ (attempt + length early))
  give_up_from a [] attempt slept calls ha h =
      let e : attempt + 0 ≡ attempt = omega arith in
      (_, give_up_now a attempt slept calls ha, omega arith, rw e)
  give_up_from a (b ∷ early) attempt slept calls ha h =
      let (w, e, called, waited) =
        give_up_from b early (attempt + 1) (slept + backoff base attempt) (calls + 1) h.0 h.1 in
      (
        w,
        retry-Transient a _ attempt (suc (length early)) slept calls ha (omega arith) ∙ e,
        omega (arith, called),
        omega (arith, waited, pow_double base attempt, pow_shift base attempt (length early)),
      )

  -- Fewer transient failures than the retries allowed, then a reply: the caller gets that reply, at
  -- that attempt, having slept `base * (2 ^ k - 1)` after `k` failures.
  pub call_with_retry_recovers :
      (early rest : List Attempt) (text : Text) (p c max_retries slept calls : ℕ)
      → All Transient early
      → length early < max_retries
      → (w : Tape) × (call_with_retry scripted max_retries base req
            (record { answers = early ++ replied text p c ∷ rest; slept = slept; calls = calls })
          ≡ (reply text p c, w))
        × (w.answers ≡ rest)
        × (w.calls ≡ calls + length early + 1)
        × (w.slept + base ≡ slept + base * 2 ^ length early)
  unfolding call_with_retry
  call_with_retry_recovers early rest text p c max_retries slept calls h lt =
      let (w, e, kept, called, waited) =
        reply_from early rest text p c 0 max_retries slept calls h lt in
      (w, e, kept, called, from_zero base slept w.slept (length early) waited)

  -- Transient failures only: the call is made exactly as often as the retries allow and then raises;
  -- it sleeps between the attempts and not after the last.
  pub call_with_retry_gives_up :
      (a : Attempt) (early : List Attempt) (slept calls : ℕ)
      → Transient a
      → All Transient early
      → (w : Tape) × (call_with_retry scripted
            (suc (length early))
            base
            req
            (record { answers = a ∷ early; slept = slept; calls = calls })
          ≡ (gave_up, w))
        × (w.calls ≡ calls + suc (length early))
        × (w.slept + base ≡ slept + base * 2 ^ length early)
  unfolding call_with_retry
  call_with_retry_gives_up a early slept calls ha h =
      let (w, e, called, waited) = give_up_from a early 0 slept calls ha h in
      (w, e, omega (arith, called), from_zero base slept w.slept (length early) waited)
