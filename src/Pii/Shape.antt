-- ===== src/Pii/Shape.antt =====
-- security/pii_redactor.py, `redact_dict`: what the result looks like, next to what was given.
use ai_chat_bot_v.Base.{ℕ, [], ◌≡◌, refl, Bool, true, false, Option, List, if◌then◌else◌}
use ai_chat_bot_v.Base.Text.{Text}
use ai_chat_bot_v.Pii.{Value, str, dict, list, other, Fields, end, field, Items, nil, cons, Regexes}
use ai_chat_bot_v.Pii.Redact.{
  is_sensitive, token, keys_of, redact_pii, redact_fields, redact_value, redact_items, redact_item,
  redact_dict,
}

module _ (regexes : Regexes) (replacement : Text) (sensitive_keys : List Text)
    (recursive : Bool) where
  abbrev secret : Text → Bool
  secret = is_sensitive regexes replacement sensitive_keys recursive

  abbrev redacted : Text
  redacted = token regexes replacement sensitive_keys recursive

  abbrev cleaned : Text → Text
  cleaned = redact_pii regexes replacement []

  -- A value and what it is redacted to: a text to its redacted form, a dict and a list to theirs if
  -- `recursive` is set and otherwise to themselves, and anything else to itself. Under a sensitive key a dict has the token, of whatever type the value
  -- was, and a list within a list is kept.
  mutual
    pub data Redacts : Value → Value → Type 0 where
      text : (t : Text) → Redacts (str t) (str (cleaned t))
      dicts :
          {fs gs : Fields} → recursive ≡ true → RedactsFields fs gs → Redacts (dict fs) (dict gs)
      lists : {vs ws : Items} → recursive ≡ true → RedactsItems vs ws → Redacts (list vs) (list ws)
      kept_dict : (fs : Fields) → recursive ≡ false → Redacts (dict fs) (dict fs)
      kept_list : (vs : Items) → recursive ≡ false → Redacts (list vs) (list vs)
      others : (n : ℕ) → Redacts (other n) (other n)

    pub data RedactsFields : Fields → Fields → Type 0 where
      ends : RedactsFields end end
      hidden :
          {k : Text} {v : Value} {fs gs : Fields}
          → secret k ≡ true
          → RedactsFields fs gs
          → RedactsFields (field k v fs) (field k (str redacted) gs)
      shown :
          {k : Text} {v w : Value} {fs gs : Fields}
          → secret k ≡ false
          → Redacts v w
          → RedactsFields fs gs
          → RedactsFields (field k v fs) (field k w gs)

    pub data RedactsItems : Items → Items → Type 0 where
      nils : RedactsItems nil nil
      item :
          {v w : Value} {vs ws : Items}
          → RedactsItem v w
          → RedactsItems vs ws
          → RedactsItems (cons v vs) (cons w ws)

    pub data RedactsItem : Value → Value → Type 0 where
      text_item : (t : Text) → RedactsItem (str t) (str (cleaned t))
      dict_item : {fs gs : Fields} → RedactsFields fs gs → RedactsItem (dict fs) (dict gs)
      list_item : (vs : Items) → RedactsItem (list vs) (list vs)
      other_item : (n : ℕ) → RedactsItem (other n) (other n)

  choose_field :
      (k : Text) (v w : Value) (fs gs : Fields) (b : Bool)
      → secret k ≡ b
      → Redacts v w
      → RedactsFields fs gs
      → RedactsFields (field k v fs) (field k (if b then str redacted else w) gs)
  choose_field k v w fs gs true e r rs = hidden e rs
  choose_field k v w fs gs false e r rs = shown e r rs

  choose_dict :
      (fs gs : Fields) (b : Bool)
      → recursive ≡ b
      → RedactsFields fs gs
      → Redacts (dict fs) (dict (if b then gs else fs))
  choose_dict fs gs true e r = dicts e r
  choose_dict fs gs false e r = kept_dict fs e

  choose_list :
      (vs ws : Items) (b : Bool)
      → recursive ≡ b
      → RedactsItems vs ws
      → Redacts (list vs) (list (if b then ws else vs))
  choose_list vs ws true e r = lists e r
  choose_list vs ws false e r = kept_list vs e

  mutual
    unfolding redact_fields redact_value redact_items redact_item

    redact_fields_shape :
        (fs : Fields)
        → RedactsFields fs (redact_fields regexes replacement sensitive_keys recursive fs)
    redact_fields_shape end = ends
    redact_fields_shape (field k v fs) =
        choose_field k v (redact_value regexes replacement sensitive_keys recursive v) fs
          (redact_fields regexes replacement sensitive_keys recursive fs) (secret k) refl
          (redact_value_shape v) (redact_fields_shape fs)

    redact_value_shape :
        (v : Value) → Redacts v (redact_value regexes replacement sensitive_keys recursive v)
    redact_value_shape (str t) = text t
    redact_value_shape (dict fs) = choose_dict fs _ recursive refl (redact_fields_shape fs)
    redact_value_shape (list vs) = choose_list vs _ recursive refl (redact_items_shape vs)
    redact_value_shape (other n) = others n

    redact_items_shape :
        (vs : Items)
        → RedactsItems vs (redact_items regexes replacement sensitive_keys recursive vs)
    redact_items_shape nil = nils
    redact_items_shape (cons v vs) = item (redact_item_shape v) (redact_items_shape vs)

    redact_item_shape :
        (v : Value) → RedactsItem v (redact_item regexes replacement sensitive_keys recursive v)
    redact_item_shape (str t) = text_item t
    redact_item_shape (dict fs) = dict_item (redact_fields_shape fs)
    redact_item_shape (list vs) = list_item vs
    redact_item_shape (other n) = other_item n

-- The result of `redact_dict` has the keys of what was given in their order. Under a sensitive key
-- stands the token, whatever stood there; under any other key stands a value of the same type: a text
-- is redacted, and what is neither a text nor a dict nor a list is as it was. If `recursive` is set, a
-- dict is gone through in the same way at every depth, and so are the texts and the dicts of a list,
-- while a list within a list is as it was; otherwise a dict and a list are as they were.
pub redact_dict-RedactsFields :
    (regexes : Regexes) (d : Fields) (replacement : Text) (sensitive_keys : Option (List Text))
    (recursive : Bool)
    → RedactsFields regexes replacement
        (keys_of sensitive_keys)
        recursive
        d
        (redact_dict regexes d replacement sensitive_keys recursive)
unfolding redact_dict
redact_dict-RedactsFields regexes d replacement sensitive_keys recursive =
    redact_fields_shape regexes replacement (keys_of sensitive_keys) recursive d
