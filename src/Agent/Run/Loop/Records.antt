-- ===== src/Agent/Run/Loop/Records.antt =====
-- What a run of an agent records: every run of a fresh agent.
use mathlib.Core.Path.{subst}
use ai_chat_bot_v.Base.{
  ℕ, zero, suc, ◌+◌, ◌≤◌, ◌<◌, ◌≡◌, refl, sym, ap, Bool, true, false, Option, none, some, length,
  arith,
}
use ai_chat_bot_v.Base.Text.{Text, strip, is_empty}
use ai_chat_bot_v.Agent.Prompts.{user}
use ai_chat_bot_v.Agent.Run.{
  AgentStatus, pending, running, completed, failure, timeout, cancelled, AgentResult, Host, Agent,
  RunState, new_run, add_memory,
}
use ai_chat_bot_v.Agent.Run.Loop.{
  Turn, next, answered, broken, Loop, make_result, after_turn, guarded, iterate, run_with, run,
}
use ai_chat_bot_v.Agent.Run.Loop.Sound.{
  Sound, Numbered, tokens_of, add_memory-Sound, Left, turn-Left,
}
use ai_chat_bot_v.Tools.Calls.{Syntax}
use ai_chat_bot_v.Tools.Limit.{CallCounts}
use ai_chat_bot_v.Tools.Registry.{Tools}

-- The states that a run ends in.
abbrev pub is_final : AgentStatus → Bool
is_final pending = false
is_final running = false
is_final completed = true
is_final failure = true
is_final timeout = true
is_final cancelled = true

-- A result that says what the agent did, and the agent after it.
pub record Recorded {syntax : Syntax} (limit max : ℕ) (r : AgentResult syntax) (s : RunState syntax)
    : Type 0 where
  pub at_most : r.total_iterations ≤ max
  pub all_steps : r.total_iterations ≡ length r.result_steps
  pub numbered : Numbered 1 r.result_steps
  pub counted : tokens_of r.result_steps ≤ r.result_tokens
  pub bounded : length s.memory ≤ limit
  pub settled : is_final r.result_status ≡ true
  pub kept : s.status ≡ r.result_status

module _ {syntax : Syntax} (host : Host syntax) (tools : Tools syntax.Json host.World)
    (agent : Agent) (h : 0 < agent.memory_limit) (max : ℕ) where
  abbrev Ends : AgentResult syntax × Loop host tools agent → Type 0
  Ends (r, (s, st)) = Recorded agent.memory_limit max r s

  make_result-Ends :
      (k : ℕ) (objective : Text) (status : AgentStatus) (answer error : Option Text)
      (st : Loop host tools agent)
      → is_final status ≡ true
      → k ≤ max
      → Sound agent.memory_limit 0 k st.0
      → Ends (make_result host tools agent objective status answer error st)
  unfolding make_result
  make_result-Ends k objective status answer error (s, (counts, w)) e le i = record {
    at_most = omega (arith, le, i.all_steps);
    all_steps = refl;
    numbered = i.numbered;
    counted = omega (arith, i.counted);
    bounded = i.bounded;
    settled = e;
    kept = refl;
  }

  after_turn-Ends :
      (t : Turn) (k : ℕ) (objective : Text) (rest : AgentResult syntax × Loop host tools agent)
      (st : Loop host tools agent)
      → suc k ≤ max
      → Left host tools agent h t k st.0
      → (Sound agent.memory_limit 0 (suc k) st.0 → Ends rest)
      → Ends (after_turn host tools agent t objective rest st)
  after_turn-Ends next k objective rest st le i later = later i
  after_turn-Ends (answered answer) k objective rest st le i later =
      make_result-Ends (suc k) objective completed (some answer) none st refl le i
  after_turn-Ends (broken error) k objective rest st le i later =
      make_result-Ends k objective failure none (some error) st refl (omega (arith, le)) i

  guarded-Ends :
      (is_cancelled is_late : Bool) (k : ℕ) (objective : Text) (unread read : Loop host tools agent)
      (rest : AgentResult syntax × Loop host tools agent)
      → k ≤ max
      → Sound agent.memory_limit 0 k unread.0
      → Sound agent.memory_limit 0 k read.0
      → Ends rest
      → Ends (guarded host tools agent is_cancelled is_late objective unread read rest)
  guarded-Ends true is_late k objective unread read rest le i j later =
      make_result-Ends k objective cancelled none _ unread refl le i
  guarded-Ends false true k objective unread read rest le i j later =
      make_result-Ends k objective timeout none _ read refl le j
  guarded-Ends false false k objective unread read rest le i j later = later

  iterate-Ends :
      (remaining k start : ℕ) (objective : Text) (st : Loop host tools agent)
      → k + remaining ≤ max
      → Sound agent.memory_limit 0 k st.0
      → Ends (iterate host tools agent remaining (suc k) start objective st)
  unfolding iterate
  iterate-Ends zero k start objective st le i =
      make_result-Ends k objective failure _ _ st refl (omega (arith, le)) i
  iterate-Ends (suc n) k start objective (s, (counts, w)) le i =
      guarded-Ends s.is_cancelled _ k objective _ _ _ (omega (arith, le)) i i (
        after_turn-Ends _ k objective _ _ (omega (arith, le))
          (turn-Left host tools agent h objective k (s, (counts, (host.time w).1)) i)
          (iterate-Ends n (suc k) start objective _ (omega (arith, le))))

  run_with-Ends :
      (problem : Option Text) (start : ℕ) (objective : Text) (st : Loop host tools agent)
      → agent.max_iterations ≤ max
      → Sound agent.memory_limit 0 0 st.0
      → Ends (run_with host tools agent problem start objective st)
  run_with-Ends none start objective st le i =
      iterate-Ends agent.max_iterations 0 start objective st (omega (arith, le)) i
  run_with-Ends (some error) start objective st le i =
      make_result-Ends 0 objective failure none _ st refl (omega arith) i

module _ {syntax : Syntax} (host : Host syntax) (tools : Tools syntax.Json host.World)
    (agent : Agent) (objective : Text) (counts : CallCounts) (w : host.World) where
  -- What the run of a fresh agent comes to if its objective is not blank.
  abbrev pub begun : AgentResult syntax × Loop host tools agent
  begun =
      let timed = host.time w in
      let routed = host.get_model_router timed.1 in
      run_with host tools agent routed.0 timed.0 (strip objective) (
        add_memory agent.memory_limit user (strip objective) (record new_run { status = running }),
        (counts, routed.1),
      )

  pub run_begun :
      is_empty (strip objective) ≡ false
      → run host tools agent objective (new_run, (counts, w)) ≡ (some begun.0, begun.1)
  unfolding run
  run_begun goal = rw goal

  begun-Recorded :
      0 < agent.memory_limit → Recorded agent.memory_limit agent.max_iterations begun.0 begun.1.0
  begun-Recorded h =
      run_with-Ends host tools agent h agent.max_iterations _ _ (strip objective) _ (omega arith) (
        add_memory-Sound agent.memory_limit h user (strip objective) 0 0 _ (record {
          all_steps = refl;
          numbered = tt;
          counted = omega arith;
          bounded = omega arith;
        }))

-- A run of a fresh agent, whose memory has a limit, on an objective that is not blank always returns
-- a result: its status is one that a run ends in, and the agent's too, its steps are no more than the
-- agent's iterations, are numbered from 1 on and use no more tokens than the result counts, and the
-- memory is within its limit.
pub run_records :
    {syntax : Syntax} (host : Host syntax) (tools : Tools syntax.Json host.World) (agent : Agent)
    (objective : Text) (counts : CallCounts) (w : host.World)
    → 0 < agent.memory_limit
    → is_empty (strip objective) ≡ false
    → (r : AgentResult syntax) × ((run host tools agent objective (new_run, (counts, w))).0
        ≡ some r)
      × Recorded agent.memory_limit agent.max_iterations r
          (run host tools agent objective (new_run, (counts, w))).1.0
run_records host tools agent objective counts w h goal =
    let e = run_begun host tools agent objective counts w goal in
    let (r, st) = begun host tools agent objective counts w in
    (
      r,
      ap (λ x. x.0) e,
      subst (λ x. Recorded agent.memory_limit agent.max_iterations r x.1.0) (sym e)
          (begun-Recorded host tools agent objective counts w h),
    )
