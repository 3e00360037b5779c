-- ===== src/RedisClient/Sample.antt =====
-- A small server in memory, on which the theorems are run: it may be unreachable, keeps no time, lists no keys,
-- and sorts the members of a set by score.
use ai_chat_bot_v.Base.{
  arith, Bool-cases, inl, inr, ℕ, ◌≡◌, refl, Bool, true, false, ◌&&◌, Option, none, some, List, [],
  ◌∷◌, String, length, filter, leb, ltb, if◌then◌else◌,
}
use Prim.Native.String.{◌++◌}
use ai_chat_bot_v.Base.Dict.{Dict, lookup, get_or, insert, contains, erase, contains-insert}
use ai_chat_bot_v.Base.Int.{ℤ, pos, negsuc, ◌+ℤ◌}
use ai_chat_bot_v.RedisClient.Server.{
  Reply, reply, redis_error, Value, number, RedisServer, IsDown, Live,
}

abbrev pub Members : Type 0
Members = List (ℕ × String)

pub record Contents : Type 0 where
  pub up : Bool
  pub values : Dict Value
  pub sets : Dict Members

abbrev pub add_sorted : ℕ → String → Members → Members
add_sorted score name [] = (score, name) ∷ []
add_sorted score name ((s, n) ∷ ms) =
    if leb s score then (s, n) ∷ add_sorted score name ms else (score, name) ∷ (s, n) ∷ ms

abbrev first_score : Members → Option ℕ
first_score [] = none
first_score ((s, n) ∷ ms) = some s

abbrev if_up : {A : Type 0} → (Contents → Reply A × Contents) → Contents → Reply A × Contents
if_up command s = if s.up then command s else (redis_error, s)

abbrev set_value : String → Value → (nx : Bool) → Contents → Reply Bool × Contents
set_value k v nx s =
    if nx && contains k s.values
    then (reply false, s)
    else (reply true, record s { values = insert k v s.values })

abbrev add_number : ℤ → Option Value → ℤ
add_number amount (some (number n)) = n +ℤ amount
add_number amount v = amount

abbrev erase_all : List String → Dict Value → Dict Value
erase_all [] d = d
erase_all (k ∷ ks) d = erase_all ks (erase k d)

abbrev pub sample : RedisServer
sample = record {
  Server = Contents;
  Db = Dict Members;
  connect = λ s. (s.up, s);
  ping = if_up (λ s. (reply true, s));
  set = λ k v ex nx. if_up (set_value k v nx);
  get = λ k. if_up (λ s. (reply (lookup k s.values), s));
  delete = λ ks. if_up (λ s. (reply (length ks), record s { values = erase_all ks s.values }));
  exists = λ k. if_up (λ s. (reply (if contains k s.values then 1 else 0), s));
  keys = λ pattern. if_up (λ s. (reply [], s));
  incrbyfloat = λ k amount. if_up (λ s.
      let n = add_number amount (lookup k s.values) in
      (reply n, record s { values = insert k (number n) s.values }));
  expire_key = λ k n. if_up (λ s. (reply (contains k s.values), s));
  ttl = λ k. if_up (λ s. (reply (if contains k s.values then pos 60 else negsuc 1), s));
  scan = λ cursor pattern n. if_up (λ s. (reply (0, []), s));
  hincrby = λ k f amount. if_up (λ s.
      let n = add_number amount (lookup (k ++ "/" ++ f) s.values) in
      (reply n, record s { values = insert (k ++ "/" ++ f) (number n) s.values }));
  hgetall = λ k. if_up (λ s. (reply [], s));
  eval = λ script. if_up (λ s. let (r, d) = script s.sets in (reply r, record s { sets = d }));
  zremrangebyscore = λ k upto d. insert k (filter (λ m. ltb upto m.0) (get_or k d [])) d;
  zcard = λ k d. length (get_or k d []);
  oldest_score = λ k d. first_score (get_or k d []);
  zadd = λ k score name d. insert k (add_sorted score name (get_or k d [])) d;
  expire = λ k n d. d;
}

abbrev pub contents : Bool → Contents
contents up = record { up = up; values = []; sets = [] }

pub sample-IsDown : IsDown sample (contents false)
sample-IsDown = record {
  connect_down = refl;
  ping_down = refl;
  set_down = λ k v ex nx. refl;
  get_down = λ k. refl;
  delete_down = λ ks. refl;
  exists_down = λ k. refl;
  keys_down = λ pattern. refl;
  incrbyfloat_down = λ k a. refl;
  hincrby_down = λ k f a. refl;
  hgetall_down = λ k. refl;
  eval_down = λ script. refl;
}

abbrev pub sample_live : Live sample
sample_live = record {
  Up = λ s. s.up ≡ true;
  connect_up = λ s h. rw h;
  ping_up = λ s h. rw h;
  set_up = λ k v ttl s h. rw h;
  set_stays = λ k v ttl s h. rw h;
  exists-set = λ k v ttl s h. rw (h, contains-insert k v s.values);
}

down_fails :
    (k : String) (v : Value) (ttl : ℕ) (s : Contents)
    → s.up ≡ false
    → ¬ ((sample.set k v (some ttl) true s).0 ≡ reply true)
down_fails k v ttl s down e = ground (arith, down, e)

there_fails :
    (k : String) (v : Value) (ttl : ℕ) (s : Contents)
    → s.up ≡ true
    → contains k s.values ≡ true
    → ¬ ((sample.set k v (some ttl) true s).0 ≡ reply true)
there_fails k v ttl s up there e = ground (arith, up, there, e)

-- A `SET NX` on a key that is set fails.
pub sample_exclusive :
    (k : String) (v : Value) (ttl ttl' : ℕ) (s : Contents)
    → (sample.set k v (some ttl) true s).0 ≡ reply true
    → (sample.set k v (some ttl') true (sample.set k v (some ttl) true s).1).0 ≡ reply false
sample_exclusive k v ttl ttl' s e = elim (Bool-cases s.up) [
  | inr down ↦ absurd (down_fails k v ttl s down e)
  | inl up ↦ elim (Bool-cases (contains k s.values)) [
    | inl there ↦ absurd (there_fails k v ttl s up there e)
    | inr free ↦ rw (up, free, contains-insert k v s.values)
  ]
]
