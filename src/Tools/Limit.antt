-- ===== src/Tools/Limit.antt =====
-- agent_tools.py, `ToolRegistry._check_rate_limit`. The times are in microseconds.
pub mod Window
use ai_chat_bot_v.Base.{
  ℕ, ◌+◌, ◌≡◌, refl, Bool, true, false, ◌&&◌, List, [], ◌∷◌, ◌++◌, String, str_eq, leb, length,
  filter, if◌then◌else◌, arith, eq_iff,
}
use ai_chat_bot_v.Base.Dict.{Dict, get_or, insert, lookup-insert}
use ai_chat_bot_v.RateLimiter.Bucket.Sliding.{recent}

-- `_call_counts`: of a tool, of a user, the times of the calls, the first one first.
abbrev pub CallCounts : Type 0
CallCounts = Dict (Dict (List ℕ))

abbrev pub timestamps_of : (tool user : String) → CallCounts → List ℕ
timestamps_of tool user counts = get_or user (get_or tool counts []) []

-- The list of the user is changed in place.
abbrev pub store : (tool user : String) → List ℕ → CallCounts → CallCounts
store tool user ts counts = insert tool (insert user ts (get_or tool counts [])) counts

unfoldable pub check_rate_limit :
    (tool user : String) (limit_per_minute now : ℕ) → CallCounts → Bool × CallCounts
check_rate_limit tool user limit_per_minute now counts =
    let timestamps = filter (recent 60 now) (timestamps_of tool user counts) in
    if leb limit_per_minute (length timestamps)
    then (false, store tool user timestamps counts)
    else (true, store tool user (timestamps ++ now ∷ []) counts)

-- What is stored for a user and a tool is read back for these, and for no others.
pub timestamps_of-store :
    (t u tool user : String) (ts : List ℕ) (counts : CallCounts)
    → timestamps_of t u (store tool user ts counts)
      ≡ (if str_eq t tool && str_eq u user then ts else timestamps_of t u counts)
timestamps_of-store t u tool user ts counts = ground (
  arith,
  eq_iff t tool,
  eq_iff u user,
  lookup-insert t tool (insert user ts (get_or tool counts [])) counts,
  lookup-insert u user ts (get_or tool counts []),
)
