-- ===== src/Pii/Examples.antt =====
-- security/pii_redactor.py at concrete inputs: one pattern of the table is recognised, by the sign `@`,
-- and the whole text counts as its match.
use ai_chat_bot_v.Base.{
  ◌≡◌, refl, Bool, true, false, not, ◌&&◌, none, [], ◌∷◌, String, str_eq, any, ◌==◌, if◌then◌else◌,
}
use ai_chat_bot_v.Base.Text.{Text, codes, same_text}
use ai_chat_bot_v.Pii.{str, dict, list, Fields, end, field, nil, cons, Regexes, FindsNothing}
use ai_chat_bot_v.Pii.Redact.{
  keys_of, redact_fields, redact_pii, contains_pii, detect_pii_types, redact_dict,
}
use ai_chat_bot_v.Pii.Clean.{is_nil, contains_pii-detect_pii_types}
use ai_chat_bot_v.Pii.Shape.{RedactsFields, redact_dict-RedactsFields}
use ai_chat_bot_v.Pii.Secrets.{
  AlikeFields, same, ends, secret, open_field, dicts, redact_dict-AlikeFields,
}

abbrev email : String
email = "\\b[A-Za-z0-9._%+\\-]+@[A-Za-z0-9.\\-]+\\.[A-Za-z]{2,}\\b"

abbrev recognise : String → Text → Bool
recognise pattern t = str_eq pattern email && any (λ c. c == b'@') t

abbrev sample : Regexes
sample = record {
  search = recognise;
  subn = λ pattern token t. if recognise pattern t then (token, 1) else (t, 0);
  sub = λ pattern f t. if recognise pattern t then f t else t;
  lower = λ t. t;
  sha256 = λ t. t;
}

abbrev sample_nothing : FindsNothing sample
sample_nothing = record { subn_nothing = λ p token t e. rw e; sub_nothing = λ p f t e. rw e }

email_redacted : redact_pii sample [] [] (codes "a@b.org") ≡ codes "[EMAIL]"
unfolding redact_pii
email_redacted = refl

email_named : detect_pii_types sample (codes "a@b.org") ≡ "email" ∷ []
unfolding detect_pii_types
email_named = refl

-- A profile with a password and a note.
abbrev profile : Text → Fields
profile password =
    field (codes "login")
      (dict (
        field (codes "password") (str password) (field (codes "note") (str (codes "a@b.org")) end)))
      (field (codes "tags")
        (list (cons (str (codes "c@d.org")) (cons (list (cons (str (codes "e@f.org")) nil)) nil)))
        end)

profile_redacted :
    redact_dict sample (profile (codes "tiger")) [] none true
    ≡ field
        (codes "login")
        (dict (
          field
            (codes "password")
            (str (codes "[REDACTED]"))
            (field (codes "note") (str (codes "[EMAIL]")) end)))
        (field
          (codes "tags")
          (list (cons (str (codes "[EMAIL]")) (cons (list (cons (str (codes "e@f.org")) nil)) nil)))
          end)
unfolding redact_dict same_text redact_fields redact_pii
profile_redacted = refl

contains_pii-detect_pii_types_example :
    contains_pii sample [] (codes "a@b.org")
    ≡ not (is_nil (detect_pii_types sample (codes "a@b.org")))
contains_pii-detect_pii_types_example = contains_pii-detect_pii_types sample (codes "a@b.org")

redact_dict-RedactsFields_example :
    RedactsFields sample []
      (keys_of none)
      true
      (profile (codes "tiger"))
      (redact_dict sample (profile (codes "tiger")) [] none true)
redact_dict-RedactsFields_example =
    redact_dict-RedactsFields sample (profile (codes "tiger")) [] none true

profiles_alike :
    AlikeFields sample [] (keys_of none) true (profile (codes "tiger")) (profile (codes "lion"))
unfolding same_text
profiles_alike =
    open_field (dicts refl (secret refl (open_field (same _) ends))) (open_field (same _) ends)

redact_dict-AlikeFields_example :
    redact_dict sample (profile (codes "tiger")) [] none true
    ≡ redact_dict sample (profile (codes "lion")) [] none true
redact_dict-AlikeFields_example = redact_dict-AlikeFields sample [] none true profiles_alike

-- Nothing below the dict itself is redacted where `recursive` is off.
nested_kept : redact_dict sample (profile (codes "tiger")) [] none false ≡ profile (codes "tiger")
unfolding redact_dict redact_fields same_text
nested_kept = refl
