-- ===== src/Tools/Calls.antt =====
-- agent_tools.py, `parse_tool_calls` and `_parse_params`: the calls that the text of a model has. The
-- regular expressions and the reading of JSON are parameters.
use ai_chat_bot_v.Base.{
  ℕ, ◌>>=◌, Bool, false, ◌&&◌, ◌||◌, Option, none, some, List, [], ◌∷◌, ◌++◌, map, String, ◌==◌,
  drop, drop_last, if◌then◌else◌,
}
use ai_chat_bot_v.Base.Text.{Text, codes, strip, is_empty, starts_with}

-- What is used of `json` and `re`. A dict is asked for a key, and what is no dict raises an
-- AttributeError then; a name that is no string stands as its printing, which no tool has as a name.
pub record Syntax : Type 1 where
  pub Json : Type 0
  pub loads : Text → Option Json
  pub get : String → Json → Option (Option Json)
  pub is_true : Json → Bool
  pub name : Json → String
  pub text : Text → Json
  pub empty_dict : Json
  -- The groups of each match of `\[\[tool:(\w+)\((.*?)\)\]\]`.
  pub marked_calls : Text → List (String × Text)
  -- The group of each match of the block that begins with three backquotes and `tool_call`.
  pub blocks : Text → List Text

-- `t.endswith(c)` of one character.
abbrev pub ends_with : ℕ → Text → Bool
ends_with c [] = false
ends_with c (d ∷ []) = c == d
ends_with c (d ∷ e ∷ t) = ends_with c (e ∷ t)

abbrev enclosed : (first last : ℕ) → Text → Bool
enclosed first last t = starts_with (first ∷ []) t && ends_with last t

-- Braces, and the two quotes.
abbrev is_braced : Text → Bool
is_braced t = enclosed 123 125 t

abbrev is_quoted : Text → Bool
is_quoted t = enclosed 34 34 t || enclosed 39 39 t

module _ (syntax : Syntax) where
  open syntax use {Json}

  pub record ToolCall : Type 0 where
    pub tool : String
    pub parameters : Json
    pub call_id : Option Json

  -- What is no JSON object is a string, without its quotes.
  abbrev plain : Text → Json
  plain t = syntax.text (if is_quoted t then drop_last 1 (drop 1 t) else t)

  abbrev or_plain : Option Json → Text → Json
  or_plain none t = plain t
  or_plain (some j) t = j

  unfoldable pub parse_params : Text → Json
  unfolding starts_with
  parse_params t =
      if is_empty t
      then syntax.empty_dict
      else if is_braced t
      then or_plain (syntax.loads t) t
      else plain t

  abbrev marked_call : String × Text → ToolCall
  marked_call (tool, params) = record {
    tool = tool;
    parameters = parse_params (strip params);
    call_id = none;
  }

  -- `a or b` of two values, `None` among them.
  abbrev or_else : Option Json → Option Json → Option Json
  or_else none b = b
  or_else (some j) b = if syntax.is_true j then some j else b

  abbrev or_empty : Option Json → Json
  or_empty none = syntax.empty_dict
  or_empty (some j) = if syntax.is_true j then j else syntax.empty_dict

  -- `if tool_name`
  abbrev named_call : Option Json → (parameters : Json) → (call_id : Option Json) → List ToolCall
  named_call none parameters call_id = []
  named_call (some j) parameters call_id =
      if syntax.is_true j
      then record { tool = syntax.name j; parameters = parameters; call_id = call_id } ∷ []
      else []

  -- The call of one block, or none if it has no name; `none` is the AttributeError.
  unfoldable pub block_call : Json → Option (List ToolCall)
  block_call j = do
    tool ← syntax.get "tool" j
    name ← syntax.get "name" j
    parameters ← syntax.get "parameters" j
    arguments ← syntax.get "arguments" j
    id ← syntax.get "id" j
    some (named_call (or_else tool name) (or_empty (or_else parameters arguments)) id)

  -- A block that is no JSON is passed over.
  unfoldable pub block_calls : List Text → Option (List ToolCall)
  unfolding block_call
  block_calls [] = some []
  block_calls (t ∷ ts) =
      let rest = block_calls ts in
      elim (syntax.loads t) [
        | none ↦ rest
        | some j ↦ do calls ← block_call j; more ← rest; some (calls ++ more)
      ]

  -- The marked calls, then those of the blocks.
  unfoldable pub parse_tool_calls : Text → Option (List ToolCall)
  unfolding block_calls parse_params
  parse_tool_calls t = do
    calls ← block_calls (syntax.blocks t)
    some (map marked_call (syntax.marked_calls t) ++ calls)

-- `text_of` is the text that a value is, if it is one; `json.loads` of another value raises a
-- TypeError.
module _ (syntax : Syntax) (text_of : syntax.Json → Option Text) where
  open syntax use {Json}

  abbrev or_empty_dict : Option Json → Json
  or_empty_dict none = syntax.empty_dict
  or_empty_dict (some j) = j

  -- `fn.get("arguments", "{}")`
  abbrev arguments_text : Option Json → Option Text
  arguments_text none = some (codes "{}")
  arguments_text (some j) = text_of j

  -- A name that is missing is printed as `None`, which no tool is called.
  abbrev printed_name : Option Json → String
  printed_name none = "None"
  printed_name (some j) = syntax.name j

  -- What the arguments, if they are JSON, lead to.
  abbrev pub call_if_loaded :
      (name : Option Json) → (call_id : Option Json) → Option Json → List (ToolCall syntax)
  call_if_loaded name call_id none = []
  call_if_loaded name call_id (some p) =
      record { tool = printed_name name; parameters = p; call_id = call_id } ∷ []

  -- One call, or none if its arguments are no JSON; `none` is the error that is not caught.
  unfoldable pub openai_call : Json → Option (List (ToolCall syntax))
  openai_call tc = do
    function ← syntax.get "function" tc
    name ← syntax.get "name" (or_empty_dict function)
    arguments ← syntax.get "arguments" (or_empty_dict function)
    t ← arguments_text arguments
    id ← syntax.get "id" tc
    some (call_if_loaded name id (syntax.loads t))

  unfoldable pub parse_openai_tool_calls : List Json → Option (List (ToolCall syntax))
  unfolding openai_call
  parse_openai_tool_calls [] = some []
  parse_openai_tool_calls (tc ∷ tcs) = do
    calls ← openai_call tc
    more ← parse_openai_tool_calls tcs
    some (calls ++ more)
