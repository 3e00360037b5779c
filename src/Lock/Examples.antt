-- ===== src/Lock/Examples.antt =====
-- The theorems on the lock with a small server.
use ai_chat_bot_v.Base.{◌≡◌, refl, true, false}
use ai_chat_bot_v.Lock.{Lock, acquire, release, acquire_excludes}
use ai_chat_bot_v.RedisClient.Sample.{sample, contents, sample_exclusive}
use ai_chat_bot_v.RedisClient.{Client}

abbrev client : Client sample
client = record { connected = true; server = contents true }

abbrev cut_off : Client sample
cut_off = record { connected = true; server = contents false }

abbrev rebuild : Lock
rebuild = record { key = "lock:rag_rebuild:ann"; timeout = 300; has_redis = true; acquired = false }

acquire_excludes_example :
    ((acquire sample rebuild client).0.0 ≡ true)
    × ((acquire sample rebuild (acquire sample rebuild client).1).0.0 ≡ false)
    × (release sample
          (acquire sample rebuild (acquire sample rebuild client).1).0.1
          (acquire sample rebuild (acquire sample rebuild client).1).1
        ≡ (acquire sample rebuild (acquire sample rebuild client).1).1)
acquire_excludes_example =
    acquire_excludes sample rebuild rebuild client sample_exclusive refl refl refl refl refl
