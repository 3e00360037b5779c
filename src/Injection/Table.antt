-- ===== src/Injection/Table.antt =====
-- security/prompt_injection.py, `_INJECTION_PATTERNS` in the order of the source. Every entry has
-- the default flags and is enabled.
use ai_chat_bot_v.Base.{ℕ, true, List, [], ◌∷◌, String}
use ai_chat_bot_v.Injection.{Severity, medium, high, critical, InjectionPattern}

abbrev entry : (name pattern : String) → Severity → (score : ℕ) → String → InjectionPattern
entry name pattern severity score description = record {
  name = name;
  pattern = pattern;
  severity = severity;
  description = description;
  score = score;
  enabled = true;
}

abbrev pub injection_patterns : List InjectionPattern
injection_patterns =
    entry "ignore_instructions"
      "ignore\\s+(all\\s+)?(previous|prior|above|earlier|your)\\s+(instructions?|rules?|prompts?|constraints?|guidelines?)"
      critical 10 "Direct attempt to override system instructions"
    ∷ entry "forget_instructions"
        "forget\\s+(everything|all|your|the)\\s*(previous|prior|above|instructions?|rules?|prompts?)?"
        critical 10 "Attempt to make AI forget its instructions"
    ∷ entry "disregard_instructions"
        "(disregard|override|bypass|skip|cancel|void|nullify|supersede)\\s+(all\\s+)?(previous|prior|your|the|system)?\\s*(instructions?|rules?|prompts?|constraints?)"
        critical 10 "Attempt to disregard or bypass instructions"
    ∷ entry "new_instructions"
        "(your\\s+new|from\\s+now\\s+on|henceforth|instead|new)\\s*(instructions?|rules?|directives?|guidelines?|purpose|goal|task)\\s*(are|is|will\\s+be)?[:\\s]"
        high 8 "Attempt to inject new instructions"
    ∷ entry "role_override"
        "you\\s+are\\s+(now\\s+)?(a|an|the)\\s+(?!helpful|assistant|AI)[a-z\\s]{3,40}(assistant|bot|ai|model|system)?"
        high 7 "Attempt to assign a different role/persona to the AI"
    ∷ entry "act_as"
        "\\b(act\\s+as|pretend\\s+(to\\s+be|you\\s+are)|roleplay\\s+as|play\\s+the\\s+role\\s+of|simulate\\s+being|behave\\s+as|respond\\s+as)\\b"
        high 7 "Attempt to make AI adopt a different persona"
    ∷ entry "dan_jailbreak"
        "\\b(DAN|do\\s+anything\\s+now|jailbreak|jail\\s+break|unrestricted\\s+mode|developer\\s+mode|god\\s+mode|evil\\s+mode)\\b"
        critical 10 "Known jailbreak attempts (DAN and variants)"
    ∷ entry "no_restrictions"
        "(without\\s+(any\\s+)?(restrictions?|limits?|filters?|rules?|guidelines?|ethics?|constraints?)|unrestricted(ly)?|uncensored|unfiltered)"
        high 8 "Attempt to make AI operate without restrictions"
    ∷ entry "system_tag_injection"
        "(<\\s*system\\s*>|<\\s*/\\s*system\\s*>|\\[system\\]|\\{system\\})" critical 10
        "Attempt to inject system-level tags"
    ∷ entry "role_tag_injection"
        "(<\\s*(user|assistant|human|ai|bot)\\s*>|\\[(user|assistant|human|ai|bot)\\])" high 8
        "Attempt to inject conversation role tags"
    ∷ entry "special_tokens"
        "(<\\|im_start\\|>|<\\|im_end\\|>|<\\|endoftext\\|>|\\[INST\\]|\\[/INST\\]|<<SYS>>|<</SYS>>|<s>|</s>)"
        critical 10 "LLM special tokens used for prompt injection"
    ∷ entry "prompt_leak_attempt"
        "(repeat|print|output|show|reveal|display|tell\\s+me|what\\s+is)\\s+(your\\s+)?(system\\s+prompt|instructions?|initial\\s+prompt|original\\s+prompt|context|training\\s+data)"
        high 7 "Attempt to extract system prompt or training data"
    ∷ entry "delimiter_injection"
        "(#{3,}|\\*{3,}|-{5,}|={5,}|_{5,})\\s*(system|instructions?|prompt|override|end\\s+of\\s+(prompt|instructions?))"
        high 7 "Delimiter-based prompt section injection"
    ∷ entry "separator_injection"
        "(end\\s+of\\s+(conversation|prompt|instructions?|context)|begin\\s+(new|fresh)\\s+(conversation|instructions?|task))"
        medium 5 "Attempt to signal end of prompt and start new context"
    ∷ entry "base64_injection"
        "(?:decode\\s+(?:this|the\\s+following)|base64)[:\\s]+[A-Za-z0-9+/]{20,}={0,2}" medium 6
        "Encoded payload attempting to bypass text filters"
    ∷ entry "unicode_injection" "\\\\u[0-9a-fA-F]{4}(\\\\u[0-9a-fA-F]{4}){4,}" medium 5
        "Unicode escape sequence injection"
    ∷ entry "context_escape"
        "(end\\s+of\\s+input|end\\s+of\\s+user\\s+input|assistant\\s*:|ai\\s*:|bot\\s*:)\\s*\\n"
        high 8 "Attempt to escape user context and speak as assistant"
    ∷ entry "training_manipulation"
        "(add\\s+this\\s+to\\s+your\\s+training|remember\\s+this\\s+for\\s+future|update\\s+your\\s+(training|weights|parameters|memory|knowledge))"
        medium 5 "Attempt to manipulate AI training or persistent memory"
    ∷ entry "hypothetical_bypass"
        "(hypothetically|in\\s+a\\s+fictional\\s+(world|scenario|context)|imagine\\s+you\\s+(had\\s+no|were\\s+without)\\s+(rules?|restrictions?|ethics?))"
        medium 4 "Using hypothetical framing to bypass restrictions"
    ∷ entry "harmful_content_request"
        "(how\\s+to\\s+(make|build|create|synthesize|hack|exploit|bypass)\\s+(bomb|weapon|malware|virus|exploit|drugs?))"
        critical 10 "Request for harmful content creation instructions"
    ∷ entry "safety_bypass"
        "(bypass|disable|turn\\s+off|remove|ignore)\\s+(safety|content\\s+filter|guardrails?|moderation|restrictions?)"
        critical 10 "Explicit attempt to disable safety systems"
    ∷ []
