-- ===== src/Pii/Secrets.antt =====
-- security/pii_redactor.py, `redact_dict`: nothing of what stands under a sensitive key goes into the
-- result.
use ai_chat_bot_v.Base.{◌≡◌, refl, ap, Bool, true, false, Option, List, if◌then◌else◌}
use ai_chat_bot_v.Base.Text.{Text}
use ai_chat_bot_v.Pii.{Value, dict, list, Fields, end, field, Items, nil, cons, Regexes}
use ai_chat_bot_v.Pii.Redact.{
  is_sensitive, keys_of, redact_fields, redact_value, redact_items, redact_item, redact_dict,
}

if_true :
    {A : Type 0} {x y : A} (x' y' : A) (b : Bool)
    → b ≡ true
    → x ≡ y
    → (if b then x else x') ≡ (if b then y else y')
if_true x' y' true e same = same
if_true x' y' false e same = cc

module _ (regexes : Regexes) (replacement : Text) (sensitive_keys : List Text)
    (recursive : Bool) where
  -- Values that differ only in what stands under the sensitive keys of their dicts, the nested ones only
  -- if `recursive` is set.
  mutual
    pub data Alike : Value → Value → Type 0 where
      same : (v : Value) → Alike v v
      dicts : {fs gs : Fields} → recursive ≡ true → AlikeFields fs gs → Alike (dict fs) (dict gs)
      lists : {vs ws : Items} → recursive ≡ true → AlikeItems vs ws → Alike (list vs) (list ws)

    pub data AlikeFields : Fields → Fields → Type 0 where
      ends : AlikeFields end end
      secret :
          {k : Text} {v w : Value} {fs gs : Fields}
          → is_sensitive regexes replacement sensitive_keys recursive k ≡ true
          → AlikeFields fs gs
          → AlikeFields (field k v fs) (field k w gs)
      open_field :
          {k : Text} {v w : Value} {fs gs : Fields}
          → Alike v w
          → AlikeFields fs gs
          → AlikeFields (field k v fs) (field k w gs)

    pub data AlikeItems : Items → Items → Type 0 where
      nils : AlikeItems nil nil
      same_item :
          {v : Value} {vs ws : Items} → AlikeItems vs ws → AlikeItems (cons v vs) (cons v ws)
      dict_item :
          {fs gs : Fields} {vs ws : Items}
          → AlikeFields fs gs
          → AlikeItems vs ws
          → AlikeItems (cons (dict fs) vs) (cons (dict gs) ws)

  mutual
    unfolding redact_fields redact_value redact_items redact_item

    redact_fields-AlikeFields :
        {fs gs : Fields}
        → AlikeFields fs gs
        → redact_fields regexes replacement sensitive_keys recursive fs
          ≡ redact_fields regexes replacement sensitive_keys recursive gs
    redact_fields-AlikeFields ends = refl
    redact_fields-AlikeFields (secret e a) = rw (e, redact_fields-AlikeFields a)
    redact_fields-AlikeFields (open_field v a) =
        rw (redact_value-Alike v, redact_fields-AlikeFields a)

    redact_value-Alike :
        {v w : Value}
        → Alike v w
        → redact_value regexes replacement sensitive_keys recursive v
          ≡ redact_value regexes replacement sensitive_keys recursive w
    redact_value-Alike (same v) = refl
    redact_value-Alike (dicts deep a) =
        ap dict (if_true _ _ recursive deep (redact_fields-AlikeFields a))
    redact_value-Alike (lists deep a) =
        ap list (if_true _ _ recursive deep (redact_items-AlikeItems a))

    redact_items-AlikeItems :
        {vs ws : Items}
        → AlikeItems vs ws
        → redact_items regexes replacement sensitive_keys recursive vs
          ≡ redact_items regexes replacement sensitive_keys recursive ws
    redact_items-AlikeItems nils = refl
    redact_items-AlikeItems (same_item a) = rw (redact_items-AlikeItems a)
    redact_items-AlikeItems (dict_item f a) =
        rw (redact_fields-AlikeFields f, redact_items-AlikeItems a)

-- Dicts that differ only in the values under sensitive keys have one and the same result: nothing of
-- those values can be told from it. The keys count at any depth of dicts, and in the dicts of their
-- lists, if `recursive` is set, and otherwise those of the dict itself.
pub redact_dict-AlikeFields :
    (regexes : Regexes) (replacement : Text) (sensitive_keys : Option (List Text))
    (recursive : Bool) {d e : Fields}
    → AlikeFields regexes replacement (keys_of sensitive_keys) recursive d e
    → redact_dict regexes d replacement sensitive_keys recursive
      ≡ redact_dict regexes e replacement sensitive_keys recursive
unfolding redact_dict
redact_dict-AlikeFields regexes replacement sensitive_keys recursive a =
    redact_fields-AlikeFields regexes replacement (keys_of sensitive_keys) recursive a
