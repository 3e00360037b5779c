-- ===== src/Compressor/Examples.antt =====
-- The theorems on the compressor at concrete threads, and the module run on small ones.
use ai_chat_bot_v.Base.{ℕ, zero, suc, ◌≡◌, refl, Option, none, some, List, [], ◌∷◌, arith, All}
use ai_chat_bot_v.Base.Text.{Text, codes, strip, is_space}
use ai_chat_bot_v.Compressor.{PastMessage, normalize, compress_history}
use ai_chat_bot_v.Compressor.Window.{IsTurn, normalize-IsTurn, compress_history_short}

abbrev thread : ℕ → List PastMessage
thread zero = PastMessage.row (some "system") (some (codes "  ")) ∷ []
thread (suc n) = PastMessage.row (some "system") (some (codes " hi ")) ∷ thread n

abbrev outage : Text → Option Text
outage t = none

blank_dropped : normalize (thread 1) ≡ record { role = "user"; content = codes "hi" } ∷ []
unfolding normalize strip is_space
blank_dropped = refl

normalize-IsTurn_example : All IsTurn (normalize (thread 2))
normalize-IsTurn_example = normalize-IsTurn (thread 2)

compress_history_short_example :
    (compress_history outage (thread 3)).messages ≡ normalize (thread 3)
unfolding normalize strip is_space
compress_history_short_example = compress_history_short outage (thread 3) (omega arith)
