-- ===== src/Injection/Sanitize.antt =====
-- security/prompt_injection.py: `sanitize_prompt`.
use ai_chat_bot_v.Base.{
  ℕ, zero, suc, ◌-◌, Bool, true, false, not, ◌&&◌, ◌||◌, List, [], ◌∷◌, ◌++◌, String, filter,
  length, leb, ◌==◌, if◌then◌else◌,
}
use ai_chat_bot_v.Base.Text.{Text, codes, starts_with, strip}
use ai_chat_bot_v.Injection.{Rules}

-- `t.replace(old, new)` of a text `old` that is not empty; after an occurrence the rest of it is
-- skipped.
unfoldable pub replace : (skip : ℕ) → (old new : Text) → Text → Text
replace skip old new [] = []
replace (suc n) old new (c ∷ t) = replace n old new t
replace zero old new (c ∷ t) = elim (starts_with old (c ∷ t)) [
  | true ↦ new ++ replace (length old - 1) old new t
  | false ↦ c ∷ replace zero old new t
]

-- `[\x00-\x08\x0b\x0c\x0e-\x1f\x7f]`
abbrev pub is_control : ℕ → Bool
is_control c = leb c 8 || c == 11 || c == 12 || (leb 14 c && leb c 31) || c == 127

-- `.replace("<", "&lt;").replace(">", "&gt;")`
unfoldable pub escape_tags : Text → Text
unfolding replace
escape_tags t = replace 0 (codes ">") (codes "&gt;") (replace 0 (codes "<") (codes "&lt;") t)

abbrev pub drop_controls : Text → Text
drop_controls t = filter (λ c. not (is_control c)) t

abbrev pub special_tokens : List String
special_tokens =
    "<|im_start|>" ∷ "<|im_end|>" ∷ "<|endoftext|>" ∷ "[INST]" ∷ "[/INST]" ∷ "<<SYS>>" ∷ "<</SYS>>"
    ∷ []

unfoldable pub remove_tokens : List String → Text → Text
unfolding replace
remove_tokens [] t = t
remove_tokens (k ∷ ks) t = remove_tokens ks (replace 0 (codes k) [] t)

-- The phrases as patterns, which `re.escape` leaves matching themselves.
abbrev pub injection_phrases : List String
injection_phrases =
    "ignore\\ previous\\ instructions" ∷ "forget\\ your\\ rules" ∷ "you\\ are\\ now" ∷ "act\\ as"
    ∷ "pretend\\ to\\ be" ∷ []

module _ (rules : Rules) where
  abbrev pub remove_phrases : List String → Text → Text
  remove_phrases [] t = t
  remove_phrases (p ∷ ps) t = remove_phrases ps (rules.sub p "" true t)

  unfoldable pub remove_more : Text → Text
  remove_more t = remove_phrases injection_phrases (
      rules.sub "\\n{4,}" "\n\n\n" false
        (rules.sub "```[\\s\\S]*?```" "[CODE_BLOCK_REMOVED]" false t))

  unfoldable pub sanitize_prompt : Text → (aggressive : Bool) → Text
  unfolding escape_tags remove_tokens remove_more
  sanitize_prompt [] aggressive = []
  sanitize_prompt (c ∷ t) aggressive =
      let text = remove_tokens special_tokens (rules.nfkc (drop_controls (escape_tags (c ∷ t)))) in
      strip (if aggressive then remove_more text else text)
