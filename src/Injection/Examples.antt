-- ===== src/Injection/Examples.antt =====
-- security/prompt_injection.py at concrete inputs: one pattern of the table is recognised, by a word
-- of it, and the Unicode tables are those of ASCII.
use ai_chat_bot_v.Base.{
  ◌≡◌, refl, Bool, true, false, ◌&&◌, ◌||◌, some, All, String, str_eq, leb, arith, if◌then◌else◌,
}
use ai_chat_bot_v.Base.Text.{Text, codes, starts_with, is_space, strip}
use ai_chat_bot_v.CostRouter.Score.{occurs_in}
use ai_chat_bot_v.Injection.{critical, Rules, KeepsAscii, SubsOnly}
use ai_chat_bot_v.Injection.Heuristics.{normalize_input, run_heuristics}
use ai_chat_bot_v.Injection.Detect.{
  compiled_patterns, detect_injection, check_input, allowed, rejected,
}
use ai_chat_bot_v.Injection.Sanitize.{remove_more, sanitize_prompt}
use ai_chat_bot_v.Injection.Verdict.{Verdict}
use ai_chat_bot_v.Injection.Clean.{IsPlain, sanitize_prompt-IsPlain}

abbrev jailbreak : String
jailbreak =
    "\\b(DAN|do\\s+anything\\s+now|jailbreak|jail\\s+break|unrestricted\\s+mode|developer\\s+mode|god\\s+mode|evil\\s+mode)\\b"

abbrev recognise : String → Text → Bool
recognise pattern t = str_eq pattern jailbreak && occurs_in (codes "jailbreak") t

-- A text with a block of code is replaced as a whole.
abbrev replace_block : String → Text → Text
replace_block replacement t = if occurs_in (codes "```") t then codes replacement else t

abbrev sample : Rules
sample = record {
  search = recognise;
  nfkc = λ t. t;
  lower = λ t. t;
  is_alnum =
      λ c. (leb b'0' c && leb c b'9') || (leb b'a' c && leb c b'z') || (leb b'A' c && leb c b'Z');
  sub = λ pattern replacement ignore_case t. replace_block replacement t;
}

sample_keeps : KeepsAscii sample
sample_keeps = record { nfkc_ascii = λ t h. refl }

sample_subs : SubsOnly sample
sample_subs = record {
  sub_copies = λ P pattern replacement ignore_case t free new old.
      elim (occurs_in (codes "```") t) as (λ b. All P (if b then codes replacement else t)) [
        | true ↦ new
        | false ↦ old
      ];
}

attack_found : check_input sample (codes "a jailbreak please") false ≡ rejected (some critical)
unfolding check_input occurs_in is_space detect_injection compiled_patterns normalize_input
    run_heuristics
attack_found = refl

plain_allowed : check_input sample (codes "a question") true ≡ allowed
unfolding check_input occurs_in is_space detect_injection compiled_patterns normalize_input
    run_heuristics
plain_allowed = refl

token_survives : sanitize_prompt sample (codes " [IN[INST]ST] <s>") false ≡ codes "[INST] &lt;s&gt;"
unfolding sanitize_prompt starts_with strip is_space
token_survives = refl

sanitize_prompt-IsPlain_example :
    All IsPlain (sanitize_prompt sample (codes "<system> ```rm```") true)
sanitize_prompt-IsPlain_example =
    sanitize_prompt-IsPlain sample sample_keeps sample_subs (codes "<system> ```rm```") true
      (omega arith)

block_removed :
    sanitize_prompt sample (codes "<system> ```rm```") true ≡ codes "[CODE_BLOCK_REMOVED]"
unfolding sanitize_prompt remove_more occurs_in strip is_space
block_removed = refl
