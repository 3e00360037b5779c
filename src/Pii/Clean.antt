-- ===== src/Pii/Clean.antt =====
-- security/pii_redactor.py: the scan, the list of types found and the two ways of redacting agree on
-- which texts hold something to redact.
use ai_chat_bot_v.Base.{
  ◌≡◌, refl, Bool, true, false, not, List, [], ◌∷◌, String, map, filter, arith,
}
use ai_chat_bot_v.Base.Text.{Text, codes}
use ai_chat_bot_v.Pii.{PiiPattern, Regexes, FindsNothing}
use ai_chat_bot_v.Pii.Redact.{
  compiled_patterns, or_default, replaced, redact_with, redact_pii, finds, contains_pii,
  detect_pii_types, hash_match, hash_with, hash_pii,
}

abbrev pub is_nil : List String → Bool
is_nil [] = true
is_nil (x ∷ xs) = false

module _ (regexes : Regexes) where
  finds_types :
      (ps : List PiiPattern) (t : Text)
      → finds regexes ps [] t
        ≡ not (
            is_nil (
              map
                (λ (p : PiiPattern). p.name)
                (filter (λ (p : PiiPattern). regexes.search p.pattern t) ps)))
  unfolding finds
  finds_types [] t = refl
  finds_types (p ∷ ps) t = ground (arith, finds_types ps t)

  -- A text contains personal data exactly when a type of it is found, whatever the text.
  pub contains_pii-detect_pii_types :
      (t : Text) → contains_pii regexes [] t ≡ not (is_nil (detect_pii_types regexes t))
  unfolding contains_pii detect_pii_types
  contains_pii-detect_pii_types [] = refl
  contains_pii-detect_pii_types (c ∷ t) = finds_types compiled_patterns (c ∷ t)

  module _ (nothing : FindsNothing regexes) where
    replaced_nothing :
        (p : String) (token t : Text) → regexes.search p t ≡ false → replaced regexes p token t ≡ t
    replaced_nothing p token t e = rw (nothing.subn_nothing p token t e)

    redact_with_clean :
        (ps : List PiiPattern) (replacement : Text) (names : List String) (t : Text)
        → finds regexes ps names t ≡ false
        → redact_with regexes ps replacement names t ≡ t
    unfolding finds redact_with
    redact_with_clean [] replacement names t h = refl
    redact_with_clean (p ∷ ps) replacement names t h = ground (
      arith,
      replaced_nothing p.pattern (or_default replacement (codes p.replacement)) t,
      redact_with_clean ps replacement names t,
    )

    hash_with_clean :
        (ps : List PiiPattern) (t : Text)
        → finds regexes ps [] t ≡ false
        → hash_with regexes ps t ≡ t
    unfolding finds hash_with
    hash_with_clean [] t h = refl
    hash_with_clean (p ∷ ps) t h =
        ground
          (arith, nothing.sub_nothing p.pattern (hash_match regexes p.name) t, hash_with_clean ps t)

    -- A text in which the patterns of the given names (all, if there are no names) find nothing is
    -- left as it is by `redact_pii` for these names, whatever the replacement.
    pub redact_pii_clean :
        (replacement : Text) (names : List String) (t : Text)
        → contains_pii regexes names t ≡ false
        → redact_pii regexes replacement names t ≡ t
    unfolding contains_pii redact_pii
    redact_pii_clean replacement names [] h = refl
    redact_pii_clean replacement names (c ∷ t) h =
        redact_with_clean compiled_patterns replacement names (c ∷ t) h

    pub hash_pii_clean : (t : Text) → contains_pii regexes [] t ≡ false → hash_pii regexes t ≡ t
    unfolding contains_pii hash_pii
    hash_pii_clean [] h = refl
    hash_pii_clean (c ∷ t) h = hash_with_clean compiled_patterns (c ∷ t) h
