-- ===== src/Tools/Web/Search.antt =====
-- agent_tools.py, `_web_search`: what it answers while no server can be reached.
use ai_chat_bot_v.Base.{◌≡◌, ◌≢◌, refl, ◌>>=◌, none, [], ◌∷◌, take}
use ai_chat_bot_v.Base.Int.{ℤ}
use ai_chat_bot_v.Base.Text.{Text, codes, strip}
use ai_chat_bot_v.Tools.Web.{
  Network, web_search_serper, duckduckgo_url, clamped, instant_answer,
  web_search_duckduckgo_fallback, search_query, web_search,
}

module _ (network : Network) (no_post : (k q : Text) (n : ℤ) → network.post_serper k q n ≡ none)
    (no_fetch : (url : Text) → network.fetch url ≡ none) where
  instant_unreached : (q : Text) (n : ℤ) → instant_answer network q n ≡ none
  unfolding instant_answer
  instant_unreached q n = rw (no_fetch (duckduckgo_url network q), ◌>>=◌) refl

  fallback_unreached :
      (q : Text) (n : ℤ)
      → web_search_duckduckgo_fallback network q n
        ≡ codes "Search temporarily unavailable. Please try again."
  unfolding web_search_duckduckgo_fallback
  fallback_unreached q n = rw (instant_unreached q n, web_search_duckduckgo_fallback) refl

  serper_unreached : (k q : Text) (n : ℤ) → web_search_serper network q n k ≡ none
  unfolding web_search_serper
  serper_unreached k q n = rw (no_post k q (clamped n), ◌>>=◌) refl

  search_unreached :
      (key q : Text) (n : ℤ)
      → q ≢ []
      → search_query network key q n ≡ codes "Search temporarily unavailable. Please try again."
  search_unreached key [] n h = absurd (h refl)
  search_unreached [] (c ∷ q) n h = fallback_unreached (c ∷ q) n
  search_unreached (d ∷ k) (c ∷ q) n h =
      rw (serper_unreached (d ∷ k) (c ∷ q) n) (fallback_unreached (c ∷ q) n)

  -- While no server answers, the search of a query that is not blank raises nothing: it says that the
  -- search is unavailable.
  pub web_search_unreached :
      (key query : Text) (n : ℤ)
      → take 300 (strip query) ≢ []
      → web_search network key query n ≡ codes "Search temporarily unavailable. Please try again."
  unfolding web_search
  web_search_unreached key query n h = search_unreached key (take 300 (strip query)) n h
