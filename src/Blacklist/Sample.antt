-- ===== src/Blacklist/Sample.antt =====
-- A small store in memory, on which the theorems on tokens are run: nothing expires in it.
use ai_chat_bot_v.Base.{◌≡◌, refl, true, none, some, List, [], ◌∷◌, String, arith}
use ai_chat_bot_v.Base.Dict.{Dict, lookup, insert, lookup-insert, str_eq_refl}
use ai_chat_bot_v.Blacklist.Store.{TokenStore, Command, setex, Stored, stored_by, Reached}
use ai_chat_bot_v.RedisClient.Server.{reply}

abbrev apply : List Command → Dict Stored → Dict Stored
apply [] d = d
apply (setex k ttl v ∷ cs) d = apply cs (insert k v d)
apply (c ∷ cs) d = apply cs d

abbrev pub memory : TokenStore
memory = record {
  Server = Dict Stored;
  ping = λ s. (reply true, s);
  setex = λ k ttl v s. (reply true, insert k v s);
  get = λ k s. (reply (lookup k s), s);
  exists = λ k s. (reply (elim (lookup k s) [ none ↦ 0 | some v ↦ 1 ]), s);
  hincrby = λ k f n s. (reply n, s);
  pipeline = λ cs s. (reply true, apply cs s);
}

pub lookup-apply :
    (cs : List Command) (s : Dict Stored) (k : String)
    → lookup k (apply cs s) ≡ (elim (stored_by k cs) [ none ↦ lookup k s | some v ↦ some v ])
lookup-apply [] s k = refl
lookup-apply (setex j ttl v ∷ cs) s k =
    ground (arith, lookup-apply cs (insert j v s) k, lookup-insert k j v s)
lookup-apply (Command.sadd j ms ∷ cs) s k = lookup-apply cs s k
lookup-apply (Command.expire j n ∷ cs) s k = lookup-apply cs s k
lookup-apply (Command.hincrby j f n ∷ cs) s k = lookup-apply cs s k
lookup-apply (Command.hset j f n ∷ cs) s k = lookup-apply cs s k

pub lookup-insert_same :
    (k : String) (v : Stored) (d : Dict Stored) → lookup k (insert k v d) ≡ some v
lookup-insert_same k v d = ground (arith, lookup-insert k k v d, str_eq_refl k)

abbrev pub memory_reached : Reached memory
memory_reached = record {
  Up = λ s. Unit;
  value = lookup;
  ping_up = λ s u. refl;
  exists_up = λ k s u. refl;
  get_up = λ k s u. refl;
  pipeline_up = λ cs s u. refl;
  pipeline_stays = λ cs s u. tt;
  pipeline_value = λ cs s k u. lookup-apply cs s k;
  setex_up = λ k ttl v s u. refl;
  setex_stays = λ k ttl v s u. tt;
  setex_value = λ k ttl v s u. lookup-insert_same k v s;
  hincrby_up = λ k f n s u. (n, refl);
  hincrby_stays = λ k f n s u. tt;
  hincrby_value = λ k f n s j u. refl;
}
