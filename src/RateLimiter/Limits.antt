-- ===== src/RateLimiter/Limits.antt =====
-- rate_limiter.py: `TIER_LIMITS` and the exempt paths.
use ai_chat_bot_v.Base.{ℕ, Bool, List, [], ◌∷◌, String, any}
use ai_chat_bot_v.Base.Dict.{Dict, get_or}
use ai_chat_bot_v.Base.Text.{Text, codes, starts_with}

-- The limits of one tier, by type of endpoint.
abbrev row : (default chat rag upload auth search agent : ℕ) → Dict ℕ
row default chat rag upload auth search agent =
    ("default", default)
    ∷ ("chat", chat)
    ∷ ("rag", rag)
    ∷ ("upload", upload)
    ∷ ("auth", auth)
    ∷ ("search", search)
    ∷ ("agent", agent)
    ∷ []

abbrev free_limits : Dict ℕ
free_limits = row 30 20 10 5 10 15 5

abbrev pub tier_limits : Dict (Dict ℕ)
tier_limits =
    ("free", free_limits)
    ∷ ("pro", row 200 120 60 20 20 100 30)
    ∷ ("enterprise", row 1000 600 300 100 50 500 200)
    ∷ ("anonymous", row 10 5 3 2 5 5 0)
    ∷ []

-- `TIER_LIMITS.get(tier, TIER_LIMITS["free"])`, and in it the type of endpoint or the default.
unfoldable pub tier_limit : (tier endpoint_type : String) → ℕ
tier_limit tier endpoint_type =
    let config = get_or tier tier_limits free_limits in
    get_or endpoint_type config (get_or "default" config 0)

abbrev pub exempt_paths : List String
exempt_paths = "/health" ∷ "/metrics" ∷ "/favicon.ico" ∷ "/static" ∷ []

unfoldable pub is_exempt : Text → Bool
unfolding starts_with
is_exempt path = any (λ p. starts_with (codes p) path) exempt_paths
