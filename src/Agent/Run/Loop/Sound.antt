-- ===== src/Agent/Run/Loop/Sound.antt =====
-- What holds of the memory, the steps and the tokens of an agent in every turn of its loop.
use ai_chat_bot_v.Base.{
  ℕ, suc, ◌+◌, ◌-◌, ◌≤◌, ◌<◌, ◌≡◌, refl, Bool, true, false, Option, none, some, List, [], ◌∷◌, ◌++◌,
  length, length-append, length-drop, arith, ltb, Bool-cases, inl, inr, if◌then◌else◌,
}
use ai_chat_bot_v.Base.Text.{Text}
use ai_chat_bot_v.Agent.Prompts.{Role, Message}
use ai_chat_bot_v.Agent.Run.{
  AgentStep, Reply, replied, timed_out, failed_call, Host, Agent, RunState, windowed, cancel,
  cancel_if, record_step, add_memory, remember_results,
}
use ai_chat_bot_v.Agent.Run.Loop.{
  Turn, next, answered, broken, Loop, finish_turn, act_on, act, after_reply, turn,
}
use ai_chat_bot_v.Tools.Calls.{Syntax, ToolCall, parse_tool_calls}
use ai_chat_bot_v.Tools.Registry.{ToolResult, Tools}

module _ {syntax : Syntax} where
  -- The steps are numbered one after the other.
  abbrev pub Numbered : ℕ → List (AgentStep syntax) → Type 0
  Numbered k [] = Unit
  Numbered k (step ∷ steps) = (step.iteration ≡ k) × Numbered (suc k) steps

  -- The tokens of the steps.
  abbrev pub tokens_of : List (AgentStep syntax) → ℕ
  tokens_of [] = 0
  tokens_of (step ∷ steps) = step.tokens_used + tokens_of steps

  Numbered-append :
      (k : ℕ) (steps : List (AgentStep syntax)) (step : AgentStep syntax)
      → Numbered k steps
      → step.iteration ≡ length steps + k
      → Numbered k (steps ++ step ∷ [])
  Numbered-append k [] step h e = (omega (arith, e), tt)
  Numbered-append k (x ∷ steps) step h e =
      (h.0, Numbered-append (suc k) steps step h.1 (omega (arith, e)))

  tokens_of-append :
      (steps : List (AgentStep syntax)) (step : AgentStep syntax)
      → tokens_of (steps ++ step ∷ []) ≡ tokens_of steps + step.tokens_used
  tokens_of-append [] step = omega arith
  tokens_of-append (x ∷ steps) step = omega (arith, tokens_of-append steps step)

  -- After `k` turns: as many steps, numbered from 1 on, whose tokens and those that the present turn
  -- owes are counted, and a memory within its limit.
  pub record Sound (limit owed k : ℕ) (s : RunState syntax) : Type 0 where
    pub all_steps : length s.steps ≡ k
    pub numbered : Numbered 1 s.steps
    pub counted : tokens_of s.steps + owed ≤ s.total_tokens
    pub bounded : length s.memory ≤ limit

-- A memory that has a limit is cut to it.
windowed_bound : (limit : ℕ) (ms : List Message) → 0 < limit → length (windowed limit ms) ≤ limit
unfolding windowed
windowed_bound limit ms h = elim (Bool-cases (ltb limit (length ms))) [
  | inr short ↦ rw short (ground (arith, short))
  | inl long ↦ rw long (ground (arith, long, h, length-drop (length ms - limit) ms))
]

module _ {syntax : Syntax} (limit : ℕ) (h : 0 < limit) where
  pub add_memory-Sound :
      (role : Role) (content : Text) (owed k : ℕ) (s : RunState syntax)
      → Sound limit owed k s
      → Sound limit owed k (add_memory limit role content s)
  unfolding add_memory
  add_memory-Sound role content owed k s i = record {
    all_steps = i.all_steps;
    numbered = i.numbered;
    counted = i.counted;
    bounded = windowed_bound limit (s.memory ++ record { role = role; content = content } ∷ []) h;
  }

  remember_results-Sound :
      (calls : List (ToolCall syntax)) (results : List ToolResult) (owed k : ℕ)
      (s : RunState syntax)
      → Sound limit owed k s
      → Sound limit owed k (remember_results limit calls results s)
  unfolding remember_results
  remember_results-Sound [] results owed k s i = i
  remember_results-Sound (c ∷ cs) [] owed k s i = i
  remember_results-Sound (c ∷ cs) (r ∷ rs) owed k s i =
      remember_results-Sound cs rs owed k _ (add_memory-Sound _ _ owed k s i)

  cancel_if-Sound :
      (b : Bool) (owed k : ℕ) (s : RunState syntax)
      → Sound limit owed k s
      → Sound limit owed k (cancel_if b s)
  unfolding cancel
  cancel_if-Sound false owed k s i = i
  cancel_if-Sound true owed k s i = record {
    all_steps = i.all_steps;
    numbered = i.numbered;
    counted = i.counted;
    bounded = i.bounded;
  }

module _ {syntax : Syntax} (host : Host syntax) (tools : Tools syntax.Json host.World)
    (agent : Agent) (h : 0 < agent.memory_limit) where
  abbrev limit : ℕ
  limit = agent.memory_limit

  record_step-Sound :
      (step : AgentStep syntax) (k : ℕ) (s : RunState syntax)
      → step.iteration ≡ suc k
      → Sound limit step.tokens_used k s
      → Sound limit 0 (suc k) (record_step step s)
  record_step-Sound step k s e i = record {
    all_steps = omega (arith, i.all_steps, length-append s.steps (step ∷ []));
    numbered = Numbered-append 1 s.steps step i.numbered (omega (arith, e, i.all_steps));
    counted = omega (arith, i.counted, tokens_of-append s.steps step);
    bounded = i.bounded;
  }

  -- What a turn leaves: one step more, or none if it broke off.
  abbrev pub Left : Turn → (k : ℕ) → RunState syntax → Type 0
  Left next k s = Sound limit 0 (suc k) s
  Left (answered answer) k s = Sound limit 0 (suc k) s
  Left (broken error) k s = Sound limit 0 k s

  pub left :
      (b : Bool) (t : Text) (k : ℕ) (s : RunState syntax)
      → Sound limit 0 (suc k) s
      → Left (if b then answered t else next) k s
  left true t k s i = i
  left false t k s i = i

  finish_turn-Left :
      (thought : Text) (step : AgentStep syntax) (k : ℕ) (st : Loop host tools agent)
      → step.iteration ≡ suc k
      → Sound limit step.tokens_used k st.0
      → let r = finish_turn host tools agent thought step st in Left r.0 k r.1.0
  unfolding finish_turn
  finish_turn-Left thought step k (s, (counts, w)) e i =
      left _ _ k _ (
        cancel_if-Sound limit h (host.on_step step w).0 0 (suc k) _
          (record_step-Sound step k s e i))

  paid : (owed k : ℕ) (s : RunState syntax) → Sound limit owed k s → Sound limit 0 k s
  paid owed k s i = record {
    all_steps = i.all_steps;
    numbered = i.numbered;
    counted = omega (arith, i.counted);
    bounded = i.bounded;
  }

  act_on-Left :
      (o : Option (List (ToolCall syntax))) (thought : Text) (tokens k : ℕ)
      (st : Loop host tools agent)
      → Sound limit tokens k st.0
      → let r = act_on host tools agent o (suc k) thought tokens st in Left r.0 k r.1.0
  act_on-Left none thought tokens k (s, st) i = paid tokens k s i
  act_on-Left (some calls) thought tokens k (s, st) i =
      finish_turn-Left thought _ k _ refl (remember_results-Sound limit h calls _ tokens k s i)

  after_reply-Left :
      (reply : Reply) (k : ℕ) (st : Loop host tools agent)
      → Sound limit 0 k st.0
      → let r = after_reply host tools agent (suc k) reply st in Left r.0 k r.1.0
  unfolding after_reply act
  after_reply-Left timed_out k (s, st) i = record_step-Sound _ k s refl i
  after_reply-Left (failed_call error) k (s, st) i = i
  after_reply-Left (replied thought p c cost) k (s, st) i =
      act_on-Left (parse_tool_calls syntax thought) thought (p + c) k _ (
        add_memory-Sound limit h _ thought (p + c) k _ (record {
          all_steps = i.all_steps;
          numbered = i.numbered;
          counted = omega (arith, i.counted);
          bounded = i.bounded;
        }))

  pub turn-Left :
      (objective : Text) (k : ℕ) (st : Loop host tools agent)
      → Sound limit 0 k st.0
      → let r = turn host tools agent (suc k) objective st in Left r.0 k r.1.0
  unfolding turn
  turn-Left objective k (s, (counts, w)) i =
      after_reply-Left _ k _ (cancel_if-Sound limit h _ 0 k s i)
