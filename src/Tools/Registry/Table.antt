-- ===== src/Tools/Registry/Table.antt =====
-- agent_tools.py, `_register_tools`: the tools that the program has, and the names that are allowed
-- if the environment names none. `fns` has the function of each tool.
use ai_chat_bot_v.Base.{true, false, List, [], ◌∷◌, String}
use ai_chat_bot_v.Tools.Registry.{Outcome, Tools}

-- `_DEFAULT_TOOLS`
abbrev pub default_tools : List String
default_tools =
    "web_search" ∷ "calculator" ∷ "current_time" ∷ "wikipedia" ∷ "unit_converter" ∷ "json_formatter"
    ∷ "weather" ∷ []

abbrev pub all_tools :
    {Parameters World : Type 0}
    → (fns : String → Parameters → World → Outcome × World) → Tools Parameters World
all_tools fns =
    (
      "calculator",
      record {
        description =
            "Evaluate mathematical expressions safely. Supports +, -, *, /, **, %, abs(), round(), min(), max().";
        properties = ("expression", "Mathematical expression to evaluate e.g. '2 + 2 * 10'") ∷ [];
        fn = fns "calculator";
        enabled = true;
        requires_network = false;
        rate_limit_per_minute = 30;
      },
    )
    ∷ (
      "web_search",
      record {
        description =
            "Search the web for current information, news, or facts. Returns real ranked search results.";
        properties = ("query", "Search query") ∷ ("num_results", "Number of results (1-10)") ∷ [];
        fn = fns "web_search";
        enabled = true;
        requires_network = true;
        rate_limit_per_minute = 20;
      },
    )
    ∷ (
      "wikipedia",
      record {
        description = "Look up factual information about a topic on Wikipedia.";
        properties =
            ("topic", "Topic to look up")
            ∷ ("sentences", "Number of summary sentences (1-10)")
            ∷ [];
        fn = fns "wikipedia";
        enabled = true;
        requires_network = true;
        rate_limit_per_minute = 30;
      },
    )
    ∷ (
      "current_time",
      record {
        description = "Get the current date and time in a specified timezone.";
        properties =
            ("timezone_name", "Timezone abbreviation: UTC, IST, EST, PST, AEST, etc.")
            ∷ ("format_str", "strftime format string")
            ∷ [];
        fn = fns "current_time";
        enabled = true;
        requires_network = false;
        rate_limit_per_minute = 30;
      },
    )
    ∷ (
      "unit_converter",
      record {
        description = "Convert between units of length, weight, temperature, and speed.";
        properties =
            ("value", "Value to convert")
            ∷ ("from_unit", "Source unit e.g. km, kg, celsius, mph")
            ∷ ("to_unit", "Target unit e.g. miles, lbs, fahrenheit, kmh")
            ∷ [];
        fn = fns "unit_converter";
        enabled = true;
        requires_network = false;
        rate_limit_per_minute = 30;
      },
    )
    ∷ (
      "json_formatter",
      record {
        description = "Format, validate, and prettify a JSON string.";
        properties =
            ("json_string", "Raw JSON string to format")
            ∷ ("indent", "Indentation spaces (default 2)")
            ∷ [];
        fn = fns "json_formatter";
        enabled = true;
        requires_network = false;
        rate_limit_per_minute = 30;
      },
    )
    ∷ (
      "weather",
      record {
        description = "Get current weather conditions for any city or location.";
        properties = ("location", "City name or location e.g. 'Raipur' or 'New York'") ∷ [];
        fn = fns "weather";
        enabled = true;
        requires_network = true;
        rate_limit_per_minute = 15;
      },
    )
    ∷ []
