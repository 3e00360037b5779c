-- ===== src/Tools/Web.antt =====
-- agent_tools.py: `_web_search` with its two engines. The answers of the servers, JSON and URLs are
-- parameters, and log lines are left out.
pub mod Pages
pub mod Search
use ai_chat_bot_v.Base.{
  ℕ, suc, ◌+◌, ◌-◌, ◌>>=◌, Bool, true, false, not, ◌&&◌, Option, none, some, List, [], ◌∷◌, ◌++◌,
  String, map, length, take, ◌==◌, if◌then◌else◌,
}
use ai_chat_bot_v.Base.Int.{ℤ, pos, negsuc, leb_ℤ}
use ai_chat_bot_v.Base.Text.{Text, codes, strip, is_empty}
use ai_chat_bot_v.Base.Text.Decimal.{decimal}
use ai_chat_bot_v.Compressor.{join}
use ai_chat_bot_v.Tools.Calls.{ends_with}

-- What a server answers: the status, and the body if it is JSON.
pub record Response (Json : Type 0) : Type 0 where
  pub status : ℕ
  pub json : Option Json

-- The network and JSON. `none` is an exception: no answer at all, a method that the value does not
-- have, a missing element.
pub record Network : Type 1 where
  pub Json : Type 0
  -- `j.get(key)`, where the inner `none` is the missing key
  pub get : String → Json → Option (Option Json)
  -- the elements of a list
  pub elements : Json → Option (List Json)
  pub is_dict : Json → Bool
  pub is_true : Json → Bool
  -- `f"{j}"`
  pub show : Json → Text
  -- `t.split(". ")`
  pub sentences : Text → List Text
  -- the text, of a string
  pub text_of : Json → Option Text
  pub quote_plus : Text → Text
  -- `client.get(url)`
  pub fetch : (url : Text) → Option (Response Json)
  -- the post to `https://google.serper.dev/search` with `q` and `num`
  pub post_serper : (api_key query : Text) → (num : ℤ) → Option (Response Json)
  -- `response.raise_for_status()` lets the status pass
  pub is_success : (status : ℕ) → Bool

-- `xs[:n]`
abbrev pub slice {ℓ} : {A : Type ℓ} → ℤ → List A → List A
slice (pos n) xs = take n xs
slice (negsuc n) xs = take (length xs - suc n) xs

-- `min(max(n, 1), 10)`
abbrev pub clamped : ℤ → ℤ
clamped n = if leb_ℤ n (pos 1) then pos 1 else if leb_ℤ n (pos 10) then n else pos 10

module _ (network : Network) where
  open network use {Json}

  -- `response.raise_for_status()`, then `response.json()`
  abbrev pub checked_json : Response Json → Option Json
  checked_json r = if network.is_success r.status then r.json else none

  -- `j.get(key, default)` where the value is only printed.
  abbrev pub shown_or : Text → Option Json → Text
  shown_or default none = default
  shown_or default (some j) = network.show j

  -- A value that is there and true.
  abbrev pub when_true : Option Json → Option Json
  when_true none = none
  when_true (some j) = if network.is_true j then some j else none

  abbrev pub or_else : Option Json → Option Json → Option Json
  or_else (some j) other = some j
  or_else none other = other

  -- `j.get(key, [])` where the value is sliced.
  abbrev pub elements_or_none : Option Json → Option (List Json)
  elements_or_none none = some []
  elements_or_none (some j) = network.elements j

  -- A line for a value that is there and true.
  abbrev pub line_if : Option Json → (before after : String) → List Text
  line_if none before after = []
  line_if (some j) before after = (codes before ++ network.show j ++ codes after) ∷ []

  -- The direct answer of the answer box.
  abbrev answer_lines : Option Json → Option (List Text)
  answer_lines none = some []
  answer_lines (some box) = do
    answer ← network.get "answer" box
    snippet ← network.get "snippet" box
    some (line_if (or_else (when_true answer) (when_true snippet)) "**Direct answer:** " "")

  abbrev titled : (title description : Option Json) → List Text
  titled title none = []
  titled title (some d) = (codes "**" ++ shown_or [] title ++ codes ":** " ++ network.show d) ∷ []

  -- The description of the knowledge graph.
  abbrev graph_lines : Option Json → Option (List Text)
  graph_lines none = some []
  graph_lines (some kg) = do
    description ← network.get "description" kg
    title ← network.get "title" kg
    some (titled title (when_true description))

  -- A part of an entry, on a line of its own if it is not empty.
  abbrev entry_line : Option Json → Text
  entry_line none = []
  entry_line (some j) = codes "\n   " ++ network.show j

  -- The entry of one organic result.
  abbrev entry : ℕ → Json → Option Text
  entry i item = do
    title ← network.get "title" item
    snippet ← network.get "snippet" item
    link ← network.get "link" item
    some (
        decimal i
        ++ codes ". **"
        ++ shown_or (codes "Untitled") title
        ++ codes "**"
        ++ entry_line (when_true snippet)
        ++ entry_line (when_true link))

  unfoldable pub entries : ℕ → List Json → Option (List Text)
  entries i [] = some []
  entries i (item ∷ items) = do e ← entry i item; es ← entries (suc i) items; some (e ∷ es)

  -- `"\n\n".join(results)`, or the empty text
  unfoldable pub format_serper_results : Json → (num_results : ℤ) → Option Text
  unfolding entries
  format_serper_results j num_results = do
    answer_box ← network.get "answerBox" j
    answer ← answer_lines (when_true answer_box)
    kg ← network.get "knowledgeGraph" j
    graph ← graph_lines (when_true kg)
    organic ← network.get "organic" j
    items ← elements_or_none organic
    organic_entries ← entries 1 (slice num_results items)
    some (join (codes "\n\n") (answer ++ graph ++ organic_entries))

  -- `formatted or None`
  abbrev not_empty : Text → Option Text
  not_empty [] = none
  not_empty (c ∷ t) = some (c ∷ t)

  -- Any failure is `None`.
  unfoldable pub web_search_serper :
      (query : Text) → (num_results : ℤ) → (api_key : Text) → Option Text
  unfolding format_serper_results
  web_search_serper query num_results api_key = do
    response ← network.post_serper api_key query (clamped num_results)
    j ← checked_json response
    formatted ← format_serper_results j num_results
    not_empty formatted

  -- A topic is a line if it is a dict with a text that is true.
  abbrev topic_line : Json → Option (List Text)
  topic_line topic =
      if network.is_dict topic
      then (do t ← network.get "Text" topic; some (line_if (when_true t) "• " ""))
      else some []

  unfoldable pub topic_lines : List Json → Option (List Text)
  topic_lines [] = some []
  topic_lines (topic ∷ topics) = do l ← topic_line topic; ls ← topic_lines topics; some (l ++ ls)

  -- The abstract, and its source below it.
  abbrev abstract_lines : (text url : Option Json) → List Text
  abstract_lines none url = []
  abstract_lines (some t) url =
      (codes "**Summary:** " ++ network.show t) ∷ line_if url "Source: " ""

  abbrev no_instant_answer : (query : Text) → Text
  no_instant_answer query =
      codes "No instant answer found for: "
      ++ query
      ++ codes
          ". (Configure SERPER_API_KEY for full search results instead of instant-answer-only lookups.)"

  abbrev lines_or : Text → List Text → Text
  lines_or t [] = t
  lines_or t (l ∷ ls) = join (codes "\n") (l ∷ ls)

  abbrev pub duckduckgo_url : (query : Text) → Text
  duckduckgo_url query =
      codes "https://api.duckduckgo.com/?q="
      ++ network.quote_plus query
      ++ codes "&format=json&no_html=1&skip_disambig=1"

  -- The `try` block.
  unfoldable pub instant_answer : (query : Text) → (num_results : ℤ) → Option Text
  unfolding topic_lines
  instant_answer query num_results = do
    response ← network.fetch (duckduckgo_url query)
    j ← checked_json response
    text ← network.get "AbstractText" j
    url ← network.get "AbstractURL" j
    related ← network.get "RelatedTopics" j
    topics ← elements_or_none related
    topic_texts ← topic_lines (slice num_results topics)
    some (
        lines_or (no_instant_answer query)
          (abstract_lines (when_true text) (when_true url) ++ topic_texts))

  unfoldable pub web_search_duckduckgo_fallback : (query : Text) → (num_results : ℤ) → Text
  unfolding instant_answer
  web_search_duckduckgo_fallback query num_results = elim (instant_answer query num_results) [
    | none ↦ codes "Search temporarily unavailable. Please try again."
    | some t ↦ t
  ]

  -- What Serper found, if it is configured and found something.
  abbrev pub serper_result : (serper_key : Text) → (query : Text) → (num_results : ℤ) → Option Text
  serper_result [] query num_results = none
  serper_result (c ∷ k) query num_results = web_search_serper query num_results (c ∷ k)

  abbrev pub or_duckduckgo : Option Text → (query : Text) → (num_results : ℤ) → Text
  or_duckduckgo (some t) query num_results = t
  or_duckduckgo none query num_results = web_search_duckduckgo_fallback query num_results

  abbrev pub search_query : (serper_key query : Text) → (num_results : ℤ) → Text
  search_query serper_key [] num_results = codes "Error: Empty search query"
  search_query serper_key (c ∷ q) num_results =
      or_duckduckgo (serper_result serper_key (c ∷ q) num_results) (c ∷ q) num_results

  -- Without a key `serper_key` is empty.
  unfoldable pub web_search : (serper_key query : Text) → (num_results : ℤ) → Text
  unfolding web_search_serper web_search_duckduckgo_fallback
  web_search serper_key query num_results =
      search_query serper_key (take 300 (strip query)) num_results
