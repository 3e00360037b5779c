-- ===== src/Injection/Clean.antt =====
-- security/prompt_injection.py: what `sanitize_prompt` leaves of a text.
use ai_chat_bot_v.Base.{
  ℕ, zero, suc, ◌-◌, ◌<◌, ◌≡◌, ◌≢◌, refl, Bool, true, false, ◌&&◌, List, [], ◌∷◌, ◌++◌, String,
  length, if◌then◌else◌, All, All-append, ◌==◌, arith, Bool-cases, inl, inr,
}
use ai_chat_bot_v.Base.Text.{Text, codes, starts_with}
use ai_chat_bot_v.Base.Text.Strip.{All-strip}
use ai_chat_bot_v.Injection.{Rules, KeepsAscii, SubsOnly}
use ai_chat_bot_v.Injection.Sanitize.{
  replace, is_control, escape_tags, drop_controls, remove_tokens, special_tokens, injection_phrases,
  remove_phrases, remove_more, sanitize_prompt,
}

-- What holds of a text and of the new text holds after a replacement.
module _ (P : ℕ → Type 0) where
  All-replace : (skip : ℕ) (old new t : Text) → All P new → All P t → All P (replace skip old new t)
  unfolding replace
  All-replace skip old new [] n h = tt
  All-replace (suc skip) old new (c ∷ t) n h = All-replace skip old new t n h.1
  All-replace zero old new (c ∷ t) n h =
      elim (starts_with old (c ∷ t))
        as (λ b. All P (elim b [
          | true ↦ new ++ replace (length old - 1) old new t
          | false ↦ c ∷ replace zero old new t
        ])) [
          | true ↦
              All-append P new (replace (length old - 1) old new t) n
                (All-replace (length old - 1) old new t n h.1)
          | false ↦ (h.0, All-replace zero old new t n h.1)
        ]

  remove_tokens-All : (ks : List String) (t : Text) → All P t → All P (remove_tokens ks t)
  unfolding remove_tokens
  remove_tokens-All [] t h = h
  remove_tokens-All (k ∷ ks) t h =
      remove_tokens-All ks (replace 0 (codes k) [] t) (All-replace 0 (codes k) [] t tt h)

-- A character that is replaced is gone, where the new text has it not.
module _ (P Q : ℕ → Type 0) (k : ℕ) (others : (c : ℕ) → Q c → c ≢ k → P c) where
  All-replace_one : (new t : Text) → All P new → All Q t → All P (replace 0 (k ∷ []) new t)
  unfolding replace starts_with
  All-replace_one new [] n h = tt
  All-replace_one new (c ∷ t) n h =
      elim (k == c)
          as (λ b.
            ((k == c) ≡ b)
            → All P (elim (b && true) [
              | true ↦ new ++ replace 0 (k ∷ []) new t
              | false ↦ c ∷ replace 0 (k ∷ []) new t
            ])) [
              | true ↦ λ same.
                  All-append P new (replace 0 (k ∷ []) new t) n (All-replace_one new t n h.1)
              | false ↦ λ other. (others c h.0 (ground arith), All-replace_one new t n h.1)
            ]
        refl

abbrev pub IsAscii : ℕ → Type 0
IsAscii c = c < 128

abbrev IsUntagged : ℕ → Type 0
IsUntagged c = (c < 128) × (c ≢ b'<') × (c ≢ b'>')

-- ASCII, neither `<` nor `>`, and no control character.
abbrev pub IsPlain : ℕ → Type 0
IsPlain c = (c < 128) × (c ≢ b'<') × (c ≢ b'>') × (is_control c ≡ false)

escape_tags-IsUntagged : (t : Text) → All IsAscii t → All IsUntagged (escape_tags t)
unfolding escape_tags
escape_tags-IsUntagged t h =
    All-replace_one IsUntagged (λ c. (c < 128) × (c ≢ b'<')) b'>' (λ c q e. (q.0, q.1, e))
      (codes "&gt;") (replace 0 (codes "<") (codes "&lt;") t) (omega arith)
      (All-replace_one (λ c. (c < 128) × (c ≢ b'<')) IsAscii b'<' (λ c q e. (q, e)) (codes "&lt;") t
        (omega arith) h)

drop_controls-IsPlain : (t : Text) → All IsUntagged t → All IsPlain (drop_controls t)
drop_controls-IsPlain [] h = tt
drop_controls-IsPlain (c ∷ t) h = elim (Bool-cases (is_control c)) [
  | inl control ↦ rw control (drop_controls-IsPlain t h.1)
  | inr printing ↦ rw printing ((h.0.0, h.0.1, h.0.2, printing), drop_controls-IsPlain t h.1)
]

plain-IsAscii : (t : Text) → All IsPlain t → All IsAscii t
plain-IsAscii [] h = tt
plain-IsAscii (c ∷ t) h = (h.0.0, plain-IsAscii t h.1)

module _ (rules : Rules) (subs : SubsOnly rules) where
  remove_phrases-IsPlain :
      (ps : List String) (t : Text) → All IsPlain t → All IsPlain (remove_phrases rules ps t)
  remove_phrases-IsPlain [] t h = h
  remove_phrases-IsPlain (p ∷ ps) t h =
      remove_phrases-IsPlain ps (rules.sub p "" true t)
        (subs.sub_copies IsPlain p "" true t tt tt h)

  -- What stands for a block of code, and for many line feeds, is plain itself.
  remove_more-IsPlain : (t : Text) → All IsPlain t → All IsPlain (remove_more rules t)
  unfolding remove_more
  remove_more-IsPlain t h =
      let no_code : All IsPlain (rules.sub "```[\\s\\S]*?```" "[CODE_BLOCK_REMOVED]" false t) =
        subs.sub_copies IsPlain _ "[CODE_BLOCK_REMOVED]" false t (omega arith) (ground arith) h in
      remove_phrases-IsPlain injection_phrases _
        (subs.sub_copies IsPlain "\\n{4,}" "\n\n\n" false _ (omega arith) (ground arith) no_code)

  more-IsPlain :
      (aggressive : Bool) (t : Text)
      → All IsPlain t
      → All IsPlain (if aggressive then remove_more rules t else t)
  more-IsPlain true t h = remove_more-IsPlain t h
  more-IsPlain false t h = h

module _ (rules : Rules) (k : KeepsAscii rules) (subs : SubsOnly rules) where
  -- What is made of an ASCII text, aggressively or not, holds no `<` and no `>`, so that no tag is left, no control
  -- character but tab, line feed and carriage return, and only ASCII characters.
  pub sanitize_prompt-IsPlain :
      (t : Text) (aggressive : Bool)
      → All IsAscii t
      → All IsPlain (sanitize_prompt rules t aggressive)
  unfolding sanitize_prompt
  sanitize_prompt-IsPlain [] aggressive h = tt
  sanitize_prompt-IsPlain (c ∷ t) aggressive h =
      let text = drop_controls (escape_tags (c ∷ t)) in
      let plain = drop_controls-IsPlain (escape_tags (c ∷ t)) (escape_tags-IsUntagged (c ∷ t) h) in
      rw (k.nfkc_ascii text (plain-IsAscii text plain)) (
        All-strip IsPlain
          (if aggressive
            then remove_more rules (remove_tokens special_tokens text)
            else remove_tokens special_tokens text)
          (more-IsPlain rules subs aggressive (remove_tokens special_tokens text)
            (remove_tokens-All IsPlain special_tokens text plain)))
