-- ===== src/Tools/Examples.antt =====
-- Runs of the registry of the tools.
use ai_chat_bot_v.Base.{ℕ, ◌≡◌, refl, List, [], ◌∷◌, String, arith}
use ai_chat_bot_v.Base.Dict.{insert}
use ai_chat_bot_v.RateLimiter.Bucket.Sliding.{ideal}
use ai_chat_bot_v.Tools.Limit.Window.{Call, InOrder, calls_of, admitted_calls, admitted_calls-ideal}

-- Of two users, one calls twice within a minute, and once more after it.
abbrev calls : List Call
calls =
    (1_000_000, "weather", "ann")
    ∷ (2_000_000, "weather", "bob")
    ∷ (3_000_000, "weather", "ann")
    ∷ (62_000_000, "weather", "ann")
    ∷ []

abbrev limits : String → ℕ
limits tool = 1

calls-InOrder : InOrder 0 calls
calls-InOrder = (omega arith, (omega arith, (omega arith, (omega arith, tt))))

admitted_times : admitted_calls limits "weather" "ann" calls [] [] ≡ 62_000_000 ∷ 1_000_000 ∷ []
unfolding admitted_calls insert
admitted_times = refl

admitted_calls-ideal_example :
    admitted_calls limits "weather" "ann" calls [] []
    ≡ ideal 60 1 (calls_of limits "weather" "ann" calls) []
admitted_calls-ideal_example = admitted_calls-ideal limits "weather" "ann" calls calls-InOrder
