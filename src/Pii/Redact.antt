-- ===== src/Pii/Redact.antt =====
-- security/pii_redactor.py: `redact_pii`, `redact_dict`, `contains_pii`, `detect_pii_types`,
-- `hash_pii` and the lists of patterns. A replacement that is not given is the empty text, and a list
-- of names that is not given the empty list: the source treats both alike. The log is left out.
use ai_chat_bot_v.Base.{
  Bool, false, not, ◌&&◌, ◌||◌, ◌-◌, Option, none, some, List, [], ◌∷◌, ◌++◌, String, filter, any,
  map, ltb, leb, take, str_eq, if◌then◌else◌,
}
use ai_chat_bot_v.Base.Text.{Text, codes, same_text}
use ai_chat_bot_v.Base.Sort.{sort_desc}
use ai_chat_bot_v.Pii.{
  PiiPattern, Value, str, dict, list, other, Fields, end, field, Items, nil, cons, Regexes,
}
use ai_chat_bot_v.Pii.Table.{pii_patterns}

abbrev sorted_patterns : List PiiPattern
sorted_patterns = sort_desc ltb (λ p. p.priority) pii_patterns

-- `_COMPILED_PATTERNS`
unfoldable pub compiled_patterns : List PiiPattern
unfolding sort_desc
compiled_patterns = filter (λ p. p.enabled) sorted_patterns

-- `replacement if replacement else default`
abbrev pub or_default : Text → Text → Text
or_default [] default = default
or_default (c ∷ t) default = c ∷ t

-- `patterns and pattern_def.name not in patterns`
abbrev pub is_left_out : List String → String → Bool
is_left_out [] name = false
is_left_out (n ∷ ns) name = not (any (str_eq name) (n ∷ ns))

abbrev default_sensitive_keys : List String
default_sensitive_keys =
    "password" ∷ "passwd" ∷ "pwd" ∷ "secret" ∷ "token" ∷ "api_key" ∷ "apikey" ∷ "access_token"
    ∷ "refresh_token" ∷ "private_key" ∷ "client_secret" ∷ "jwt" ∷ "authorization" ∷ "credit_card"
    ∷ "card_number" ∷ "cvv" ∷ "ssn" ∷ "aadhaar" ∷ []

-- `sensitive_keys`, where `None` stands for the default ones.
abbrev pub keys_of : Option (List Text) → List Text
keys_of none = map codes default_sensitive_keys
keys_of (some ks) = ks

module _ (regexes : Regexes) where
  abbrev pub replaced : (pattern : String) → (token : Text) → Text → Text
  replaced pattern token t = let (t', n) = regexes.subn pattern token t in if ltb 0 n then t' else t

  -- The loop over the patterns.
  unfoldable pub redact_with :
      List PiiPattern → (replacement : Text) → (names : List String) → Text → Text
  redact_with [] replacement names t = t
  redact_with (p ∷ ps) replacement names t = redact_with ps replacement names (
      if is_left_out names p.name
      then t
      else replaced p.pattern (or_default replacement (codes p.replacement)) t)

  unfoldable pub redact_pii : (replacement : Text) → (names : List String) → Text → Text
  unfolding redact_with compiled_patterns
  redact_pii replacement names [] = []
  redact_pii replacement names (c ∷ t) = redact_with compiled_patterns replacement names (c ∷ t)

  unfoldable pub finds : List PiiPattern → (names : List String) → Text → Bool
  finds [] names t = false
  finds (p ∷ ps) names t =
      (not (is_left_out names p.name) && regexes.search p.pattern t) || finds ps names t

  unfoldable pub contains_pii : (names : List String) → Text → Bool
  unfolding finds compiled_patterns
  contains_pii names [] = false
  contains_pii names (c ∷ t) = finds compiled_patterns names (c ∷ t)

  unfoldable pub detect_pii_types : Text → List String
  unfolding compiled_patterns
  detect_pii_types [] = []
  detect_pii_types (c ∷ t) =
      map (λ p. p.name) (filter (λ p. regexes.search p.pattern (c ∷ t)) compiled_patterns)

  -- `pattern_def.name.upper()`, of a name in lower case with underscores.
  abbrev upper : Text → Text
  upper t = map (λ c. if leb b'a' c && leb c b'z' then c - 32 else c) t

  -- `[NAME:digest]`, the digest of the match cut to twelve digits.
  abbrev pub hash_match : String → Text → Text
  hash_match name m =
      codes "[" ++ (upper (codes name) ++ (codes ":" ++ (take 12 (regexes.sha256 m) ++ codes "]")))

  unfoldable pub hash_with : List PiiPattern → Text → Text
  hash_with [] t = t
  hash_with (p ∷ ps) t = hash_with ps (regexes.sub p.pattern (hash_match p.name) t)

  unfoldable pub hash_pii : Text → Text
  unfolding hash_with compiled_patterns
  hash_pii [] = []
  hash_pii (c ∷ t) = hash_with compiled_patterns (c ∷ t)

  module _ (replacement : Text) (sensitive_keys : List Text) (recursive : Bool) where
    -- `key_lower in sensitive_lower`
    abbrev pub is_sensitive : Text → Bool
    is_sensitive key = any (λ k. same_text (regexes.lower k) (regexes.lower key)) sensitive_keys

    abbrev pub token : Text
    token = or_default replacement (codes "[REDACTED]")

    -- The loop of `redact_dict` over the items of a dict, and the elements of a list: a text and a dict
    -- are redacted, a list within a list is not.
    unfoldable mutual
      pub redact_fields : Fields → Fields
      redact_fields end = end
      redact_fields (field k v fs) =
          let rest = redact_fields fs in
          let v' = redact_value v in field k (if is_sensitive k then str token else v') rest

      pub redact_value : Value → Value
      redact_value (str t) = str (redact_pii replacement [] t)
      redact_value (dict fs) = let fs' = redact_fields fs in dict (if recursive then fs' else fs)
      redact_value (list vs) = let vs' = redact_items vs in list (if recursive then vs' else vs)
      redact_value (other n) = other n

      pub redact_items : Items → Items
      redact_items nil = nil
      redact_items (cons v vs) = let rest = redact_items vs in cons (redact_item v) rest

      pub redact_item : Value → Value
      redact_item (str t) = str (redact_pii replacement [] t)
      redact_item (dict fs) = dict (redact_fields fs)
      redact_item (list vs) = list vs
      redact_item (other n) = other n

  unfoldable pub redact_dict :
      Fields
      → (replacement : Text) → (sensitive_keys : Option (List Text)) → (recursive : Bool) → Fields
  redact_dict d replacement sensitive_keys recursive =
      redact_fields replacement (keys_of sensitive_keys) recursive d

-- `get_pattern_names`; the table was sorted in place.
unfoldable pub get_pattern_names : List String
unfolding sort_desc
get_pattern_names = map (λ p. p.name) sorted_patterns
