-- ===== src/Agent/Prompts.antt =====
-- agent_loop.py: the prompts of an agent, and how an answer signals that the objective is reached.
-- `lower` is `str.lower`, a parameter.
use ai_chat_bot_v.Base.{
  ℕ, ◌+◌, Bool, List, [], ◌∷◌, ◌++◌, map, String, str_eq, length, take, take_last, drop, filter,
  any, if◌then◌else◌,
}
use ai_chat_bot_v.Base.Text.{Text, codes, strip, starts_with}
use ai_chat_bot_v.Base.Text.Decimal.{decimal}
use ai_chat_bot_v.Compressor.{join}
use ai_chat_bot_v.CostRouter.Score.{occurs_in}
use ai_chat_bot_v.Tools.Registry.{Tools, get_tool_schemas}

-- The roles of the messages that an agent remembers.
pub data Role : Type 0 where
  user : Role
  assistant : Role
  system : Role

pub record Message : Type 0 where
  pub role : Role
  pub content : Text

-- `msg['role'].upper()`
abbrev upper : Role → String
upper user = "USER"
upper assistant = "ASSISTANT"
upper system = "SYSTEM"

-- A line of the list of tools.
abbrev tool_line : String × String × List (String × String) → Text
tool_line (name, description, properties) =
    codes "\n- **"
    ++ codes name
    ++ codes "**("
    ++ join (codes ", ") (map (λ p. codes p.0 ++ codes ": " ++ codes p.1) properties)
    ++ codes "): "
    ++ codes description

module _ {Parameters World : Type 0} (tools : Tools Parameters World) where
  unfoldable pub build_system_prompt : (available_tools : List String) → Text
  unfolding join get_tool_schemas
  build_system_prompt available_tools =
      codes
        "You are an autonomous AI agent. You reason step by step and use tools to complete objectives.\n"
      ++ codes "\n"
      ++ codes "## Available Tools\n"
      ++ join []
          (map tool_line (filter (λ s. any (str_eq s.0) available_tools) (get_tool_schemas tools)))
      ++ codes "\n"
      ++ codes "\n"
      ++ codes "## Tool Usage Format\n"
      ++ codes "To call a tool, include in your response:\n"
      ++ codes "[[tool:tool_name({\"param\": \"value\"})]]\n"
      ++ codes "\n"
      ++ codes "## Instructions\n"
      ++ codes "1. Think carefully about what you need to do\n"
      ++ codes "2. Use tools when you need real-time information or calculations\n"
      ++ codes "3. Analyze tool results and continue reasoning\n"
      ++ codes
          "4. When the objective is complete, say \"FINAL ANSWER:\" followed by your complete response\n"
      ++ codes "5. Be concise but thorough\n"
      ++ codes "6. Never make up information — use tools to verify facts\n"
      ++ codes "\n"
      ++ codes "## Completion Signal\n"
      ++ codes "When done, write: \"FINAL ANSWER: <your complete answer here>\"\n"

-- A line of the history.
abbrev history_line : Message → Text
history_line m = codes "[" ++ codes (upper m.role) ++ codes "]: " ++ take 800 m.content

abbrev history : List Message → Text
history [] = codes "This is the first iteration."
history (m ∷ ms) = join (codes "\n") (map history_line (take_last 12 (m ∷ ms)))

unfoldable pub build_user_prompt : Text → List Message → (iteration max_iterations : ℕ) → Text
unfolding join
build_user_prompt objective memory iteration max_iterations =
    codes "## Objective\n"
    ++ objective
    ++ codes "\n\n## Progress ("
    ++ decimal iteration
    ++ codes "/"
    ++ decimal max_iterations
    ++ codes " iterations)\n"
    ++ history memory
    ++ codes "\n\n## Your Turn\n"
    ++ codes "Continue working toward the objective. Use tools if needed.\n"
    ++ codes "If objective is complete, write \"FINAL ANSWER: <answer>\".\n"

-- `_COMPLETION_SIGNALS`
abbrev pub completion_signals : List String
completion_signals =
    "final answer:" ∷ "objective is complete" ∷ "task completed" ∷ "task is complete"
    ∷ "i have completed" ∷ "i have finished" ∷ "the answer is complete" ∷ "in conclusion,"
    ∷ "to summarize everything" ∷ []

-- `t.index(k)` of a key that occurs.
unfoldable pub index : Text → Text → ℕ
unfolding starts_with
index k [] = 0
index k (c ∷ t) = let rest = index k t in if starts_with k (c ∷ t) then 0 else 1 + rest

module _ (lower : Text → Text) where
  unfoldable pub detect_completion : Text → Bool
  unfolding occurs_in
  detect_completion thought =
      any (λ signal. occurs_in (codes signal) (lower thought)) completion_signals

  -- The place is found in the lowered text and used in the text as it is.
  unfoldable pub extract_final_answer : Text → Text
  unfolding occurs_in index strip
  extract_final_answer thought =
      let signal = codes "final answer:" in
      if occurs_in signal (lower thought)
      then strip (drop (index signal (lower thought) + length signal) thought)
      else strip thought
