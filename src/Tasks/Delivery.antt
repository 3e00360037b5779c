-- ===== src/Tasks/Delivery.antt =====
-- background_tasks.py, `deliver_webhook`: a webhook is posted, and posted again later if that fails.
use mathlib.Core.Path.{subst}
use native.Mathlib.Nat.{pow-suc}
use ai_chat_bot_v.Base.{
  ℕ, zero, suc, ◌+◌, ◌*◌, ◌^◌, ◌≤◌, ◌≡◌, refl, ◌⊎◌, inl, inr, Bool, ◌||◌, List, [], ◌∷◌, ◌++◌, ◌==◌,
  take, All, arith, if◌then◌else◌,
}
use ai_chat_bot_v.Base.Dict.{Dict}
use ai_chat_bot_v.Base.Text.{Text, codes}
use ai_chat_bot_v.Base.Text.Decimal.{decimal}
use ai_chat_bot_v.Tasks.{Retried, again, exceeded, reraised, IsCelery}

-- What a post comes to.
pub data Posted : Type 0 where
  responded : (status : ℕ) → (text : Text) → Posted
  post_error : Text → Posted

-- The network, JSON and HMAC. `retries` is how often the task was retried before, so that the posts of
-- a task can come to different ends.
pub record Sender : Type 1 where
  pub Body : Type 0
  -- `payload.get("event", "unknown")`
  pub event : Body → Text
  -- `json.dumps(payload, separators=(",", ":"))`
  pub dumps : Body → Text
  pub hmac_sha256 : (secret body : Text) → Text
  pub post : (url : Text) → Body → (headers : Dict Text) → (retries : ℕ) → Posted

-- What a run of the task ends with.
pub data Run : Type 0 where
  delivered : (http_status : ℕ) → Run
  retries_in : (countdown : ℕ) → Run
  failed : (error : Text) → Run
  raises : (error : Text) → Run

abbrev pub is_delivered : (status : ℕ) → Bool
is_delivered s = s == 200 || s == 201 || s == 202 || s == 204

abbrev pub http_error : ℕ → Text → Text
http_error status text = codes "HTTP " ++ decimal status ++ codes ": " ++ take 200 text

-- The status of a post that delivers, or else the text of what is raised.
abbrev pub status_or_error : Posted → ℕ ⊎ Text
status_or_error (responded status text) =
    if is_delivered status then inl status else inr (http_error status text)
status_or_error (post_error e) = inr e

-- `raise self.retry(exc=exc, countdown=countdown)` and its handler.
abbrev pub after_retry : Retried → (retries : ℕ) → (error : Text) → Run
after_retry again retries error = retries_in (30 * 2 ^ retries)
after_retry exceeded retries error = failed error
after_retry reraised retries error = raises error

-- What comes before the runs that follow.
abbrev pub then_again : Run → List ℕ × Run → List ℕ × Run
then_again (retries_in countdown) (waits, end) = (countdown ∷ waits, end)
then_again end later = ([], end)

abbrev pub sum : List ℕ → ℕ
sum [] = 0
sum (n ∷ ns) = n + sum ns

-- The attempts from one on, so many after it.
abbrev pub tries_from : (left : ℕ) → (retries : ℕ) → List ℕ
tries_from zero retries = retries ∷ []
tries_from (suc left) retries = retries ∷ tries_from left (suc retries)

module _ (sender : Sender) (retry : (retries : ℕ) → Retried) (url : Text) (payload : sender.Body)
    (request_id : Text) (secret_hash : Text) where
  abbrev signature_header : (secret : Text) → Dict Text
  signature_header [] = []
  signature_header (c ∷ secret) =
      (
        "X-DevMentor-Signature",
        codes "sha256=" ++ sender.hmac_sha256 (c ∷ secret) (sender.dumps payload),
      )
      ∷ []

  -- Without a secret `secret_hash` is empty, and without an id `request_id`.
  abbrev headers : Dict Text
  headers =
      ("Content-Type", codes "application/json")
      ∷ ("User-Agent", codes "DevMentorAI-Webhook/1.0")
      ∷ ("X-DevMentor-Event", sender.event payload)
      ∷ ("X-DevMentor-Delivery", request_id)
      ∷ signature_header secret_hash

  abbrev pub attempted : (retries : ℕ) → ℕ ⊎ Text
  attempted retries = status_or_error (sender.post url payload headers retries)

  abbrev pub ended : ℕ ⊎ Text → (retries : ℕ) → Run
  ended (inl status) retries = delivered status
  ended (inr error) retries = after_retry (retry retries) retries error

  unfoldable pub deliver_webhook : (retries : ℕ) → Run
  deliver_webhook retries = ended (attempted retries) retries

  -- The runs of the task, at most so many after the first: how long each waited for the next, and
  -- the end of the last.
  unfoldable pub all_runs : (left : ℕ) → (retries : ℕ) → List ℕ × Run
  unfolding deliver_webhook
  all_runs zero retries = ([], deliver_webhook retries)
  all_runs (suc left) retries = then_again (deliver_webhook retries) (all_runs left (suc retries))

  -- The attempt did not deliver.
  abbrev pub Fails : ℕ → Type 0
  Fails retries = (error : Text) × (attempted retries ≡ inr error)

  -- The run that delivers, if one does, and otherwise that every attempt failed and the last error is
  -- raised.
  abbrev pub Ends : (left retries : ℕ) → Run → Type 0
  Ends left retries end =
      ((n : ℕ) × (status : ℕ) × (n ≤ retries + left)
        × (attempted n ≡ inl status)
        × (end ≡ delivered status))
      ⊎ (All Fails (tries_from left retries) × (error : Text) × (end ≡ raises error))

  last-Ends :
      (retries : ℕ) (o : ℕ ⊎ Text)
      → attempted retries ≡ o
      → retry retries ≡ reraised
      → Ends zero retries (ended o retries)
  last-Ends retries (inl status) e k = inl (retries, status, omega arith, e, refl)
  last-Ends retries (inr error) e k = inr (((error, e), tt), error, rw k refl)

  -- The runs that follow one that failed.
  later-Ends :
      (left retries : ℕ) (end : Run)
      → Fails retries
      → Ends left (suc retries) end
      → Ends (suc left) retries end
  later-Ends left retries end f (inl (n, status, le, e, d)) = inl (n, status, omega arith, e, d)
  later-Ends left retries end f (inr (fs, error, d)) = inr ((f, fs), error, d)

  abbrev Bounded : (left retries : ℕ) → List ℕ × Run → Type 0
  Bounded left retries (waits, end) = Ends left retries end × (sum waits + 30 * 2 ^ retries ≤ 960)

  next-Bounded :
      (left retries : ℕ) (o : ℕ ⊎ Text) (later : List ℕ × Run)
      → attempted retries ≡ o
      → retry retries ≡ again
      → Bounded left (suc retries) later
      → Bounded (suc left) retries (then_again (ended o retries) later)
  next-Bounded left retries (inl status) later e k b =
      (inl (retries, status, omega arith, e, refl), omega (arith, b.1, pow-suc 2 retries))
  next-Bounded left retries (inr error) (waits, end) e k (d, b) =
      rw k (later-Ends left retries end (error, e) d, omega (arith, b, pow-suc 2 retries))

  module _ (celery : IsCelery 5 retry) where
    runs-Bounded :
        (left retries : ℕ) → retries + left ≡ 5 → Bounded left retries (all_runs left retries)
    unfolding all_runs
    runs-Bounded zero retries h =
        let five : 5 ≡ retries = omega arith in
        let k : retry retries ≡ reraised = subst (λ n. retry n ≡ reraised) five celery.gives_up in
        (last-Ends retries (attempted retries) refl k, rw (← five) (omega arith))
    runs-Bounded (suc left) retries h =
        next-Bounded left retries (attempted retries) (all_runs left (suc retries)) refl
          (celery.runs_again retries (omega arith)) (runs-Bounded left (suc retries) (omega arith))

    -- Where Celery retries as it documents, the runs of a task end, after six of them at most and no
    -- more than 930 seconds of waiting: either with the status of an attempt that was delivered, or,
    -- all six having failed, with an exception; they never end with the answer of a failed delivery.
    pub all_runs-Ends : Ends 5 0 (all_runs 5 0).1 × (sum (all_runs 5 0).0 ≤ 930)
    all_runs-Ends = let (e, b) = runs-Bounded 5 0 refl in (e, omega arith)
