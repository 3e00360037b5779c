-- ===== src/Tools/Limit/Window.antt =====
-- The rate limit of the tools against the ideal sliding window of one user and one tool, among the
-- calls of all users and tools.
use ai_chat_bot_v.Base.{
  ℕ, ◌+◌, ◌≤◌, ◌≡◌, refl, sym, ◌∙◌, Bool, true, false, not, ◌&&◌, List, [], ◌∷◌, ◌++◌, String,
  str_eq, leb, ltb, length, filter, count, count-filter, length-filter, Bool-cases, inl, inr,
  if◌then◌else◌, arith, eq_iff, &&-eq-true,
}
use ai_chat_bot_v.Base.Dict.{str_eq_refl}
use ai_chat_bot_v.RateLimiter.Bucket.Sliding.{Arrival, recent, ideal, ideal_bound}
use ai_chat_bot_v.Tools.Limit.{CallCounts, timestamps_of, check_rate_limit, timestamps_of-store}

-- A call: its time, its tool and its user.
abbrev pub Call : Type 0
Call = ℕ × String × String

-- Each is made no earlier than the one before it.
abbrev pub InOrder : ℕ → List Call → Type 0
InOrder last [] = Unit
InOrder last ((t, tool, user) ∷ cs) = (last ≤ t) × InOrder t cs

pub count-append : (p : ℕ → Bool) (xs ys : List ℕ) → count p (xs ++ ys) ≡ count p xs + count p ys
count-append p [] ys = omega arith
count-append p (x ∷ xs) ys = ground (arith, count-append p xs ys)

&&-true : (a : Bool) → (a && true) ≡ a
&&-true a = ground arith

&&-false : (a : Bool) {b : Bool} → b ≡ false → (a && b) ≡ false
&&-false a e = ground (arith, e)

module _ (limits : String → ℕ) (tool user : String) where
  abbrev ours : (tool' user' : String) → Bool
  ours tool' user' = str_eq tool tool' && str_eq user user'

  -- The calls of the user to the tool.
  abbrev pub calls_of : List Call → List Arrival
  calls_of [] = []
  calls_of ((t, tool', user') ∷ cs) =
      let rest = calls_of cs in if ours tool' user' then (t, user) ∷ rest else rest

  -- The times at which the registry lets the user call the tool, in a run of calls of all users and
  -- tools, the last first.
  unfoldable pub admitted_calls : List Call → CallCounts → List ℕ → List ℕ
  unfolding check_rate_limit
  admitted_calls [] counts log = log
  admitted_calls ((t, tool', user') ∷ cs) counts log =
      let (ok, counts') = check_rate_limit tool' user' (limits tool') t counts in
      admitted_calls cs counts' (if ok && ours tool' user' then t ∷ log else log)

  abbrev Agrees : ℕ → CallCounts → List ℕ → Type 0
  Agrees now counts log =
      (u : ℕ)
      → now ≤ u
      → count (recent 60 u) (timestamps_of tool user counts) ≡ count (recent 60 u) log

  -- What has left the window by now has left every later one.
  count-kept :
      (t u : ℕ) (ts : List ℕ)
      → t ≤ u
      → count (recent 60 u) (filter (recent 60 t) ts) ≡ count (recent 60 u) ts
  count-kept t u ts h = count-filter (recent 60 u) (recent 60 t) ts (λ x e. ground (arith, e, h))

  -- What a check leaves of the times of the user and the tool.
  timestamps_of-check :
      (tool' user' : String) (limit t : ℕ) (counts : CallCounts)
      → let kept = filter (recent 60 t) (timestamps_of tool' user' counts) in
        timestamps_of tool user (check_rate_limit tool' user' limit t counts).1 ≡ (
          if ours tool' user'
          then if leb limit (length kept) then kept else kept ++ t ∷ []
          else timestamps_of tool user counts)
  unfolding check_rate_limit
  timestamps_of-check tool' user' limit t counts =
      let kept = filter (recent 60 t) (timestamps_of tool' user' counts) in
      elim (Bool-cases (leb limit (length kept))) [
        | inl full ↦ rw full (timestamps_of-store tool user tool' user' kept counts)
        | inr free ↦ rw free (timestamps_of-store tool user tool' user' (kept ++ t ∷ []) counts)
      ]

  step-other :
      (last t : ℕ) (tool' user' : String) (counts : CallCounts) (log : List ℕ)
      → last ≤ t
      → ours tool' user' ≡ false
      → Agrees last counts log
      → Agrees t (check_rate_limit tool' user' (limits tool') t counts).1 log
  step-other last t tool' user' counts log order other agrees u later =
      rw (timestamps_of-check tool' user' (limits tool') t counts, other)
        (agrees u (omega (arith, order, later)))

  -- The calls that are kept are those that the ideal window counts.
  full-ideal :
      (last t limit : ℕ) (counts : CallCounts) (log : List ℕ)
      → last ≤ t
      → Agrees last counts log
      → leb limit (length (filter (recent 60 t) (timestamps_of tool user counts)))
        ≡ not (ltb (count (recent 60 t) log) limit)
  full-ideal last t limit counts log order agrees =
      ground (arith, length-filter (recent 60 t) (timestamps_of tool user counts), agrees t order)

  check_rate_limit-full :
      (limit t : ℕ) (counts : CallCounts)
      → (check_rate_limit tool user limit t counts).0
        ≡ not (leb limit (length (filter (recent 60 t) (timestamps_of tool user counts))))
  unfolding check_rate_limit
  check_rate_limit-full limit t counts = ground arith

  step-ours :
      (last t limit : ℕ) (counts : CallCounts) (log : List ℕ)
      → last ≤ t
      → Agrees last counts log
      → let free = ltb (count (recent 60 t) log) limit in
        ((check_rate_limit tool user limit t counts).0 ≡ free)
        × Agrees t (check_rate_limit tool user limit t counts).1 (if free then t ∷ log else log)
  step-ours last t limit counts log order agrees =
      let ts = timestamps_of tool user counts in
      let kept = filter (recent 60 t) ts in
      let full = full-ideal last t limit counts log order agrees in
      let answer = check_rate_limit-full limit t counts in
      (
        ground (arith, answer, full),
        λ u later.
            let same : count (recent 60 u) kept ≡ count (recent 60 u) log =
              count-kept t u ts later ∙ agrees u (omega (arith, order, later)) in
            rw
              (
                timestamps_of-check tool user limit t counts,
                str_eq_refl tool,
                str_eq_refl user,
                full,
              )
              (elim (Bool-cases (ltb (count (recent 60 t) log) limit)) [
                | inl free ↦ rw (free, count-append (recent 60 u) kept (t ∷ []), same) (omega arith)
                | inr over ↦ rw (over, same)
              ]),
      )

  admitted_calls-ideal' :
      (cs : List Call) (counts : CallCounts) (log : List ℕ) (last : ℕ)
      → Agrees last counts log
      → InOrder last cs
      → admitted_calls cs counts log ≡ ideal 60 (limits tool) (calls_of cs) log
  unfolding admitted_calls ideal
  admitted_calls-ideal' [] counts log last agrees order = refl
  admitted_calls-ideal' ((t, tool', user') ∷ cs) counts log last agrees order =
      elim (Bool-cases (str_eq tool tool' && str_eq user user')) [
        | inr other ↦
            rw (&&-false (check_rate_limit tool' user' (limits tool') t counts).0 other, other)
              (admitted_calls-ideal' cs (check_rate_limit tool' user' (limits tool') t counts).1 log
                t (step-other last t tool' user' counts log order.0 other agrees) order.1)
        | inl mine ↦
            let both = &&-eq-true (str_eq tool tool') (str_eq user user') mine in
            let step = step-ours last t (limits tool) counts log order.0 agrees in
            rw
              (
                sym ((eq_iff tool tool').0 both.0),
                sym ((eq_iff user user').0 both.1),
                str_eq_refl tool,
                str_eq_refl user,
                step.0,
                &&-true (ltb (count (recent 60 t) log) (limits tool)),
              )
              (admitted_calls-ideal' cs (check_rate_limit tool user (limits tool) t counts).1
                (if ltb (count (recent 60 t) log) (limits tool) then t ∷ log else log) t step.1
                order.1)
      ]

  -- In a run of calls in order, from a registry that has seen none on, the registry lets each user
  -- call each tool exactly when the ideal window of 60 seconds lets them, whatever the other users
  -- call and whatever other tools they call.
  pub admitted_calls-ideal :
      (cs : List Call)
      → InOrder 0 cs
      → admitted_calls cs [] [] ≡ ideal 60 (limits tool) (calls_of cs) []
  admitted_calls-ideal cs order = admitted_calls-ideal' cs [] [] 0 (λ u h. refl) order

  -- No user calls a tool more often than its limit within 60 seconds, wherever these end.
  pub admitted_calls_bound :
      (cs : List Call) (u : ℕ)
      → InOrder 0 cs
      → count (λ t. leb t u && recent 60 u t) (admitted_calls cs [] []) ≤ limits tool
  admitted_calls_bound cs u order =
      rw (admitted_calls-ideal cs order)
        (ideal_bound 60 (limits tool) u (calls_of cs) [] (omega arith))
