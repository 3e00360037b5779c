-- ===== src/Tools/Web/Pages.antt =====
-- agent_tools.py: `_wikipedia_lookup` and `_weather`.
use ai_chat_bot_v.Base.{
  ◌>>=◌, Option, none, some, List, [], ◌∷◌, ◌++◌, String, take, ◌==◌, if◌then◌else◌,
}
use ai_chat_bot_v.Base.Int.{ℤ}
use ai_chat_bot_v.Base.Text.{Text, codes, strip}
use ai_chat_bot_v.Compressor.{join}
use ai_chat_bot_v.Tools.Calls.{ends_with}
use ai_chat_bot_v.Tools.Web.{Response, Network, slice, checked_json, shown_or, when_true}

module _ (network : Network) where
  open network use {Json}

  -- `j.get(key, {})`, then `get` of another key: what a missing dict has is missing.
  abbrev pub get_in : String → Option Json → Option (Option Json)
  get_in key none = some none
  get_in key (some j) = network.get key j

  abbrev with_stop : Text → Text
  with_stop t = if ends_with b'.' t then t else t ++ codes "."

  -- `extract`, whose `split` a value that is no string does not have.
  abbrev extract_of : Option Json → Option Text
  extract_of none = some (codes "No content available")
  extract_of (some j) = network.text_of j

  abbrev entry_source : Option Json → Text
  entry_source none = []
  entry_source (some j) = codes "\nSource: " ++ network.show j

  abbrev article : (topic : Text) → Json → (sentences : ℤ) → Option Text
  article topic j sentences = do
    title ← network.get "title" j
    found ← network.get "extract" j
    urls ← network.get "content_urls" j
    desktop ← get_in "desktop" urls
    page ← get_in "page" desktop
    extract ← extract_of found
    let summary = join (codes ". ") (slice sentences (network.sentences extract))
    some (
        codes "**"
        ++ shown_or network topic title
        ++ codes "**\n"
        ++ with_stop summary
        ++ entry_source (when_true network page))

  abbrev wikipedia_answer : (topic : Text) → Response Json → (sentences : ℤ) → Option Text
  wikipedia_answer topic response sentences =
      if response.status == 404
      then some (codes "No Wikipedia article found for '" ++ topic ++ codes "'")
      else checked_json network response >>= λ j. article topic j sentences

  abbrev wikipedia_of : (topic : Text) → (sentences : ℤ) → Option Text
  wikipedia_of [] sentences = some (codes "Error: Empty topic")
  wikipedia_of (c ∷ t) sentences = do
    response ←
        network.fetch
          (codes "https://en.wikipedia.org/api/rest_v1/page/summary/" ++ network.quote_plus (c ∷ t))
    wikipedia_answer (c ∷ t) response sentences

  -- `none` is the text that begins with `Wikipedia lookup failed` and ends with what was raised.
  unfoldable pub wikipedia_lookup : (topic : Text) → (sentences : ℤ) → Option Text
  wikipedia_lookup topic sentences = wikipedia_of (take 200 (strip topic)) sentences

  abbrev head : List Json → Option Json
  head [] = none
  head (j ∷ js) = some j

  -- `j.get(key, [{}])[0]`
  abbrev first_in : String → Option Json → Option (Option Json)
  first_in key j = do
    found ← get_in key j
    elim found [
      | none ↦ some none
      | some l ↦ (do js ← network.elements l; x ← head js; some (some x))
    ]

  -- `j.get(key, [{}])[0].get("value", default)`
  abbrev value_in : String → Option Json → (default : Text) → Option Text
  value_in key j default = do
    x ← first_in key j
    v ← get_in "value" x
    some (shown_or network default v)

  abbrev shown_in : String → Json → Option Text
  shown_in key j = do v ← network.get key j; some (shown_or network (codes "?") v)

  abbrev report : (location : Text) → Json → Option Text
  report location j = do
    conditions ← network.get "current_condition" j
    l ← conditions
    js ← network.elements l
    current ← head js
    temp_c ← shown_in "temp_C" current
    temp_f ← shown_in "temp_F" current
    feels_c ← shown_in "FeelsLikeC" current
    humidity ← shown_in "humidity" current
    desc ← value_in "weatherDesc" (some current) (codes "Unknown")
    wind_kmph ← shown_in "windspeedKmph" current
    area ← first_in "nearest_area" (some j)
    area_name ← value_in "areaName" area location
    country ← value_in "country" area []
    some (
        codes "**Weather in "
        ++ area_name
        ++ codes ", "
        ++ country
        ++ codes "**\nCondition: "
        ++ desc
        ++ codes "\nTemperature: "
        ++ temp_c
        ++ codes "°C / "
        ++ temp_f
        ++ codes "°F (feels like "
        ++ feels_c
        ++ codes "°C)\nHumidity: "
        ++ humidity
        ++ codes "%\nWind: "
        ++ wind_kmph
        ++ codes " km/h")

  -- Nothing but the status 200 is read.
  abbrev weather_report : (location : Text) → Option Text
  weather_report location = do
    response ←
        network.fetch
          (codes "https://wttr.in/" ++ network.quote_plus location ++ codes "?format=j1")
    if response.status == 200 then (response.json >>= report location) else none

  abbrev weather_of : (location : Text) → Text
  weather_of [] = codes "Error: Location required"
  weather_of (c ∷ t) = elim (weather_report (c ∷ t)) [
    | none ↦ codes "Weather data unavailable for '" ++ (c ∷ t) ++ codes "'"
    | some r ↦ r
  ]

  unfoldable pub weather : (location : Text) → Text
  weather location = weather_of (take 100 (strip location))
