-- ===== src/Blacklist/Examples.antt =====
-- The theorems on the blacklist with a small store in memory.
use ai_chat_bot_v.Base.{false, []}
use ai_chat_bot_v.Blacklist.{State}
use ai_chat_bot_v.Blacklist.Sample.{memory}

abbrev fresh : State memory
fresh = record { connected = false; server = [] }
