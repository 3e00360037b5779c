-- ===== src/Memory/Prompt.antt =====
-- long_term_memory.py, `format_memories_for_prompt`, of memories whose content and type are texts; and
-- how long the text can get.
use ai_chat_bot_v.Base.{
  ℕ, ◌+◌, ◌≤◌, ◌≡◌, List, [], ◌∷◌, ◌++◌, length, length-append, ltb, max, if◌then◌else◌, arith,
}
use ai_chat_bot_v.Base.Text.{Text, codes}

pub record Remembered : Type 0 where
  pub memory_type : Text
  pub content : Text

abbrev pub line_of : Remembered → Text
line_of m = codes "- [" ++ (m.memory_type ++ (codes "] " ++ m.content))

abbrev pub header : Text
header = codes "## What I Remember About You"

-- The lines that fit, up to the first that does not: `total` characters stand above them.
unfoldable pub lines_within : (max_chars total : ℕ) → List Remembered → List Text
lines_within max_chars total [] = []
lines_within max_chars total (m ∷ ms) =
    let rest = lines_within max_chars (total + length (line_of m)) ms in
    if ltb max_chars (total + length (line_of m)) then [] else line_of m ∷ rest

-- `"\n".join` of a header and the lines below it.
unfoldable pub join_below : Text → List Text → Text
join_below h [] = h
join_below h (l ∷ ls) = h ++ (10 ∷ join_below l ls)

unfoldable pub format_memories_for_prompt : List Remembered → (max_chars : ℕ) → Text
unfolding lines_within join_below
format_memories_for_prompt [] max_chars = []
format_memories_for_prompt (m ∷ ms) max_chars =
    join_below header (lines_within max_chars (length header) (m ∷ ms))

pub characters : List Text → ℕ
characters [] = 0
characters (l ∷ ls) = length l + characters ls

length-join_below :
    (h : Text) (ls : List Text) → length (join_below h ls) ≡ length h + characters ls + length ls
unfolding join_below characters
length-join_below h [] = omega arith
length-join_below h (l ∷ ls) =
    omega (arith, length-append {0} h (10 ∷ join_below l ls), length-join_below l ls)

lines_fit :
    (max_chars total : ℕ) (ms : List Remembered)
    → (total + characters (lines_within max_chars total ms) ≤ max total max_chars)
      × (length (lines_within max_chars total ms) ≤ length ms)
unfolding lines_within characters
lines_fit max_chars total [] = omega arith
lines_fit max_chars total (m ∷ ms) =
    ground (arith, lines_fit max_chars (total + length (line_of m)) ms)

-- The text has at most the characters asked for, or those of the header if these are more, and one
-- line feed for each memory, which the count leaves out.
pub length-format_memories_for_prompt-le :
    (ms : List Remembered) (max_chars : ℕ)
    → length (format_memories_for_prompt ms max_chars) ≤ max (length header) max_chars + length ms
unfolding format_memories_for_prompt
length-format_memories_for_prompt-le [] max_chars = omega arith
length-format_memories_for_prompt-le (m ∷ ms) max_chars =
    let fits = lines_fit max_chars (length header) (m ∷ ms) in
    omega (arith, length-join_below header (lines_within max_chars (length header) (m ∷ ms)))
