-- ===== src/Tools/Local.antt =====
-- agent_tools.py: the tools that need no network, `_current_time`, `_unit_converter`,
-- `_convert_temperature` and `_json_formatter`. Floats, dates and JSON are parameters.
pub mod Zones
use ai_chat_bot_v.Base.{
  ℕ, ◌+◌, Bool, true, false, not, ◌&&◌, ◌||◌, Option, none, some, List, [], ◌∷◌, ◌++◌, String, any,
  ◌⊎◌, inl, inr, length, take, count, ltb, ◌==◌, if◌then◌else◌,
}
use ai_chat_bot_v.Base.Int.{ℤ, pos, negsuc, leb_ℤ}
use ai_chat_bot_v.Base.Text.{Text, codes, strip, is_empty, same_text}
use ai_chat_bot_v.Base.Text.Decimal.{decimal}

-- What a dict with names as keys has for a text.
abbrev pub text_lookup {ℓ} : {A : Type ℓ} → Text → List (String × A) → Option A
text_lookup t [] = none
text_lookup t ((k, a) ∷ d) = if same_text t (codes k) then some a else text_lookup t d

abbrev pub is_one_of : Text → List String → Bool
is_one_of t ks = any (λ k. same_text t (codes k)) ks

-- Moments, with a shift by so many half hours, `strftime`, which may raise, and the format
-- `%Y-%m-%d %H:%M:%S`, which does not.
pub record Calendar : Type 1 where
  pub Moment : Type 0
  pub shift : ℤ → Moment → Moment
  pub strftime : Text → Moment → Option Text
  pub standard : Moment → Text
  pub upper : Text → Text

-- `tz_offsets`, in half hours.
abbrev pub tz_offsets : List (String × ℤ)
tz_offsets =
    ("UTC", pos 0)
    ∷ ("IST", pos 11)
    ∷ ("EST", negsuc 9)
    ∷ ("PST", negsuc 15)
    ∷ ("CST", negsuc 11)
    ∷ ("MST", negsuc 13)
    ∷ ("GMT", pos 0)
    ∷ ("AEST", pos 20)
    ∷ ("JST", pos 18)
    ∷ ("CET", pos 2)
    ∷ ("EET", pos 4)
    ∷ []

module _ (calendar : Calendar) where
  open calendar use {Moment}

  abbrev pub offset_of : (timezone_name : Text) → ℤ
  offset_of name = elim (text_lookup (calendar.upper name) tz_offsets) [ none ↦ pos 0 | some n ↦ n ]

  abbrev pub safe_format : Text → Text
  safe_format [] = codes "%Y-%m-%d %H:%M:%S"
  safe_format (c ∷ t) = take 50 (c ∷ t)

  abbrev pub labelled : Option Text → (timezone_name : Text) → Moment → Text
  labelled (some t) name now = t ++ codes " " ++ name
  labelled none name now = calendar.standard now ++ codes " UTC"

  unfoldable pub current_time : (timezone_name format_str : Text) → (now_utc : Moment) → Text
  unfolding same_text
  current_time name format now =
      labelled (calendar.strftime (safe_format format) (calendar.shift (offset_of name) now)) name
        now

-- Floats; `literal` reads a constant of the source.
pub record Floats : Type 1 where
  pub Float : Type 0
  pub literal : String → Float
  pub add : Float → Float → Float
  pub sub : Float → Float → Float
  pub mul : Float → Float → Float
  pub div : Float → Float → Float
  -- `f"{x}"`, `f"{x:.6g}"`, `f"{x:.2f}"`
  pub show : Float → Text
  pub show_6g : Float → Text
  pub show_2f : Float → Text
  pub lower : Text → Text

abbrev pub conversions : List (String × String)
conversions =
    ("km", "1000")
    ∷ ("m", "1")
    ∷ ("cm", "0.01")
    ∷ ("mm", "0.001")
    ∷ ("miles", "1609.344")
    ∷ ("mile", "1609.344")
    ∷ ("feet", "0.3048")
    ∷ ("ft", "0.3048")
    ∷ ("inches", "0.0254")
    ∷ ("inch", "0.0254")
    ∷ ("in", "0.0254")
    ∷ ("yards", "0.9144")
    ∷ ("yd", "0.9144")
    ∷ ("kg", "1")
    ∷ ("g", "0.001")
    ∷ ("mg", "0.000001")
    ∷ ("lbs", "0.453592")
    ∷ ("lb", "0.453592")
    ∷ ("oz", "0.0283495")
    ∷ ("tonnes", "1000")
    ∷ ("ton", "907.185")
    ∷ ("kmh", "0.277778")
    ∷ ("mph", "0.44704")
    ∷ ("ms", "1")
    ∷ ("knots", "0.514444")
    ∷ []

abbrev temp_units : List String
temp_units = "celsius" ∷ "fahrenheit" ∷ "kelvin" ∷ "c" ∷ "f" ∷ "k" ∷ []

pub data Category : Type 0 where
  length_unit weight_unit speed_unit unknown : Category

-- `_get_category`
unfoldable pub get_category : Text → Category
unfolding same_text
get_category unit =
    if is_one_of unit (
      "km" ∷ "m" ∷ "cm" ∷ "mm" ∷ "miles" ∷ "mile" ∷ "feet" ∷ "ft" ∷ "inches" ∷ "inch" ∷ "in"
      ∷ "yards" ∷ "yd" ∷ [])
    then length_unit
    else if is_one_of unit ("kg" ∷ "g" ∷ "mg" ∷ "lbs" ∷ "lb" ∷ "oz" ∷ "tonnes" ∷ "ton" ∷ [])
    then weight_unit
    else if is_one_of unit ("kmh" ∷ "mph" ∷ "ms" ∷ "knots" ∷ [])
    then speed_unit
    else unknown

abbrev pub same_category : Category → Category → Bool
same_category length_unit length_unit = true
same_category weight_unit weight_unit = true
same_category speed_unit speed_unit = true
same_category unknown unknown = true
same_category _ _ = false

module _ (floats : Floats) where
  open floats use {Float, literal, add, sub, mul, div}

  -- What begins with `°`, and its name; `u` is the first character.
  abbrev to_celsius : Float → (u : Text) → Option Float
  to_celsius x u =
      if same_text u (codes "c")
      then some x
      else if same_text u (codes "f")
      then some (div (mul (sub x (literal "32")) (literal "5")) (literal "9"))
      else if same_text u (codes "k")
      then some (sub x (literal "273.15"))
      else none

  abbrev from_celsius : Float → (u : Text) → Option (Float × String)
  from_celsius x u =
      if same_text u (codes "c")
      then some (x, "°C")
      else if same_text u (codes "f")
      then some (add (div (mul x (literal "9")) (literal "5")) (literal "32"), "°F")
      else if same_text u (codes "k")
      then some (add x (literal "273.15"), "K")
      else none

  abbrev unknown_temperature : Text → Text
  unknown_temperature u = codes "Unknown temperature unit: " ++ u

  abbrev converted_to : Float → Option (Float × String) → (to : Text) → Text
  converted_to x none to = unknown_temperature to
  converted_to x (some (y, name)) to =
      floats.show x ++ codes "° → " ++ floats.show_2f y ++ codes " " ++ codes name

  abbrev converted_from : Float → Option Float → (from to : Text) → Text
  converted_from x none from to = unknown_temperature from
  converted_from x (some c) from to = converted_to x (from_celsius c to) to

  -- `unit[0].lower()`; the units have a character here.
  abbrev first_lower : Text → Text
  first_lower u = floats.lower (take 1 u)

  unfoldable pub convert_temperature : Float → (from_unit to_unit : Text) → Text
  unfolding same_text
  convert_temperature x from to =
      converted_from x (to_celsius x (first_lower from)) (first_lower from) (first_lower to)

  abbrev cannot_convert : (from to : Text) → Text
  cannot_convert from to =
      codes "Cannot convert " ++ from ++ codes " to " ++ to ++ codes " — different unit categories"

  -- What the factors of the units, if they are known, lead to.
  abbrev pub convert_by : Float → (from to : Text) → Option String → Option String → Text
  convert_by x from to none k = codes "Unknown unit: " ++ from
  convert_by x from to (some j) none = codes "Unknown unit: " ++ to
  convert_by x from to (some j) (some k) =
      if same_category (get_category from) (get_category to)
      then floats.show x
        ++ codes " "
        ++ from
        ++ codes " = "
        ++ floats.show_6g (div (mul x (literal j)) (literal k))
        ++ codes " "
        ++ to
      else cannot_convert from to

  abbrev pub convert_units : Float → (from to : Text) → Text
  convert_units x from to =
      if is_one_of from temp_units && is_one_of to temp_units
      then convert_temperature x from to
      else convert_by x from to (text_lookup from conversions) (text_lookup to conversions)

  unfoldable pub unit_converter : Float → (from_unit to_unit : Text) → Text
  unfolding same_text get_category convert_temperature
  unit_converter x from to = convert_units x (strip (floats.lower from)) (strip (floats.lower to))

-- What `json.loads` comes to; the last is what is no JSONDecodeError.
pub data Loaded (Json : Type 0) : Type 0 where
  loaded : Json → Loaded Json
  decode_error : Text → Loaded Json
  load_error : Text → Loaded Json

pub record Formatter : Type 1 where
  pub Json : Type 0
  pub loads : Text → Loaded Json
  pub dumps : (indent : ℤ) → Json → Text

abbrev at_most_8 : ℤ → ℤ
at_most_8 n = if leb_ℤ n (pos 8) then n else pos 8

module _ (formatter : Formatter) where
  -- The text, or `none` with what is raised.
  abbrev formatted : Loaded formatter.Json → (indent : ℤ) → Text ⊎ Text
  formatted (loaded j) indent =
      let t = formatter.dumps (at_most_8 indent) j in
      inl (
        codes "Valid JSON ("
        ++ decimal (count (λ c. c == 10) t + 1)
        ++ codes " lines):\n```json\n"
        ++ t
        ++ codes "\n```")
  formatted (decode_error e) indent = inl (codes "Invalid JSON: " ++ e)
  formatted (load_error e) indent = inr e

  unfoldable pub json_formatter : (json_string : Text) → (indent : ℤ) → Text ⊎ Text
  json_formatter t indent =
      if is_empty (strip t)
      then inl (codes "Error: Empty JSON input")
      else if ltb 50_000 (length t)
      then inl (codes "Error: JSON too large (max 50KB)")
      else formatted (formatter.loads (strip t)) indent
