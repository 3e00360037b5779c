-- ===== src/Tools/Registry.antt =====
-- agent_tools.py, `ToolRegistry`: the tools, and the execution of a call. The functions of the tools
-- are parameters: they take parameters of some type, and may change the world. Neither the time that a
-- call takes nor the types and defaults of a tool's parameters are kept.
pub mod Table
use ai_chat_bot_v.Base.{
  ℕ, Bool, true, false, not, ◌&&◌, Option, none, some, List, [], ◌∷◌, ◌++◌, map, String, str_eq,
  ltb, length, take, filter, any, if◌then◌else◌,
}
use ai_chat_bot_v.Base.Dict.{Dict, lookup}
use ai_chat_bot_v.Base.Text.{Text, codes}
use ai_chat_bot_v.Base.Text.Decimal.{decimal}
use ai_chat_bot_v.Tools.Limit.{CallCounts, check_rate_limit}

-- What the function of a tool comes to: the text that it returns, or what it raises.
pub data Outcome : Type 0 where
  output : Text → Outcome
  type_error : Text → Outcome
  other_error : Text → Outcome

pub record ToolDefinition (Parameters World : Type 0) : Type 0 where
  pub description : String
  pub properties : List (String × String)
  pub fn : Parameters → World → Outcome × World
  pub enabled : Bool
  pub requires_network : Bool
  pub rate_limit_per_minute : ℕ

pub record ToolResult : Type 0 where
  pub tool_name : String
  pub success : Bool
  pub output : Text
  pub error : Option Text

abbrev pub failed : String → Text → ToolResult
failed name error = record { tool_name = name; success = false; output = []; error = some error }

abbrev pub unavailable : String → ToolResult
unavailable name = failed name (codes "Tool '" ++ codes name ++ codes "' is not available")

abbrev pub rate_limited : String → ℕ → ToolResult
rate_limited name limit = failed name (
    codes "Rate limit exceeded for '"
    ++ codes name
    ++ codes "' ("
    ++ decimal limit
    ++ codes "/min). Please wait before retrying.")

-- `MAX_TOOL_OUTPUT_LENGTH`
abbrev pub max_tool_output_length : ℕ
max_tool_output_length = 2000

unfoldable pub truncated : Text → Text
truncated t =
    if ltb max_tool_output_length (length t)
    then take max_tool_output_length t
      ++ codes "\n\n[Output truncated — "
      ++ decimal (length t)
      ++ codes " chars total]"
    else t

-- What the registry makes of the outcome.
abbrev pub result_of : String → Outcome → ToolResult
result_of name (output t) = record {
  tool_name = name;
  success = true;
  output = truncated t;
  error = none;
}
result_of name (type_error e) = failed name (codes "Invalid parameters: " ++ e)
result_of name (other_error e) = failed name (codes "Tool execution failed: " ++ e)

abbrev pub Tools : (Parameters World : Type 0) → Type 0
Tools Parameters World = Dict (ToolDefinition Parameters World)

-- What the calls change: the times of the calls, and the world.
abbrev pub ToolState : (World : Type 0) → Type 0
ToolState World = CallCounts × World

module _ {Parameters World : Type 0} where
  -- `_register_tools`, from the table of all tools.
  unfoldable pub register_tools :
      (allowed : List String) → Tools Parameters World → Tools Parameters World
  register_tools allowed all_tools = filter (λ e. any (str_eq e.0) allowed) all_tools

  -- What the check of the rate limit leads to.
  abbrev pub after_check :
      Bool
      → String
      → ToolDefinition Parameters World
      → Parameters
      → ToolState World
      → ToolResult × ToolState World
  after_check false name tool parameters st = (rate_limited name tool.rate_limit_per_minute, st)
  after_check true name tool parameters (counts, w) =
      let (r, w') = tool.fn parameters w in (result_of name r, (counts, w'))

  -- What the tool of the name, if there is one, leads to.
  abbrev pub execute_found :
      Option (ToolDefinition Parameters World)
      → (name : String) → Parameters
      → (user : String) (now : ℕ) → ToolState World
      → ToolResult × ToolState World
  execute_found none name parameters user now st = (unavailable name, st)
  execute_found (some tool) name parameters user now (counts, w) =
      let (ok, counts') = check_rate_limit name user tool.rate_limit_per_minute now counts in
      after_check ok name tool parameters (counts', w)

  unfoldable pub execute :
      Tools Parameters World
      → (name : String) → Parameters
      → (user : String) (now : ℕ) → ToolState World
      → ToolResult × ToolState World
  unfolding check_rate_limit
  execute tools name parameters user now st =
      execute_found (lookup name tools) name parameters user now st

  -- The name, the description and the parameters of each tool that is enabled.
  unfoldable pub get_tool_schemas :
      Tools Parameters World → List (String × String × List (String × String))
  get_tool_schemas tools =
      map (λ e. (e.0, e.1.description, e.1.properties)) (filter (λ e. e.1.enabled) tools)

  abbrev pub list_tools : Tools Parameters World → List String
  list_tools tools = map (λ e. e.0) tools

  unfoldable pub is_available : Tools Parameters World → String → Bool
  is_available tools name = elim (lookup name tools) [ none ↦ false | some tool ↦ tool.enabled ]
