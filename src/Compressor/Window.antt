-- ===== src/Compressor/Window.antt =====
-- What `compress_history` returns: its size, what is kept word for word, and who may speak.
use ai_chat_bot_v.Base.{
  ℕ, ◌+◌, ◌-◌, ◌≤◌, ◌<◌, ◌≡◌, refl, false, Option, none, some, List, [], ◌∷◌, ◌++◌, String, length,
  take, drop, All, All-drop, length-take, length-drop, take-append-drop, leb, str_eq, if◌then◌else◌,
  arith, Bool-cases, inl, inr, ◌⊎◌, eq_iff,
}
use ai_chat_bot_v.Base.Text.Strip.{strip_idem}
use ai_chat_bot_v.Base.Text.{Text, strip, is_empty}
use ai_chat_bot_v.Compressor.{
  Message, PastMessage, normal_role, normalize, head_message, summarize, compress_history, role_of,
  content_of, or_empty,
}

-- A message of the normalised history: a known speaker, and a stripped content that is not empty.
pub record IsTurn (m : Message) : Type 0 where
  pub speaks : (m.role ≡ "user") ⊎ (m.role ≡ "assistant")
  pub stripped : strip m.content ≡ m.content
  pub says : is_empty m.content ≡ false

normal_role_cases : (r : Option String) → (normal_role r ≡ "user") ⊎ (normal_role r ≡ "assistant")
normal_role_cases none = inl refl
normal_role_cases (some r) = ground arith

-- Whatever the rows hold, every message that is kept is a turn of the user or of the assistant.
pub normalize-IsTurn : (past : List PastMessage) → All IsTurn (normalize past)
unfolding normalize
normalize-IsTurn [] = tt
normalize-IsTurn (m ∷ ms) = elim (Bool-cases (is_empty (strip (or_empty (content_of m))))) [
  | inl e ↦ rw e (normalize-IsTurn ms)
  | inr e ↦ rw e (
    record { speaks = normal_role_cases (role_of m); stripped = strip_idem _; says = e },
    normalize-IsTurn ms,
  )
]

-- A normalised history as a caller would pass it again.
abbrev pub as_dicts : List Message → List PastMessage
as_dicts [] = []
as_dicts (m ∷ ms) = PastMessage.dict (some m.role) (some m.content) ∷ as_dicts ms

normal_role_idem : (m : Message) → IsTurn m → normal_role (some m.role) ≡ m.role
normal_role_idem m h = ground (arith, eq_iff m.role "assistant")

normalize_turns : (ms : List Message) → All IsTurn ms → normalize (as_dicts ms) ≡ ms
unfolding normalize
normalize_turns [] h = refl
normalize_turns (m ∷ ms) h =
    ground (arith, normal_role_idem m h.0, h.0.stripped, h.0.says, normalize_turns ms h.1)

-- Normalising a normalised history changes nothing.
pub normalize_idem :
    (past : List PastMessage) → normalize (as_dicts (normalize past)) ≡ normalize past
normalize_idem past = normalize_turns (normalize past) (normalize-IsTurn past)

module _ (complete : Text → Option Text) (past : List PastMessage) where
  -- At most thirty messages go to the model, however long the thread is and whether or not the
  -- summary could be made.
  pub length-compress_history-le : length (compress_history complete past).messages ≤ 30
  unfolding compress_history
  length-compress_history-le =
      ground (arith, length-drop (length (normalize past) - 20) (normalize past))

  -- Up to thirty messages pass unchanged.
  pub compress_history_short :
      length (normalize past) ≤ 30 → (compress_history complete past).messages ≡ normalize past
  unfolding compress_history
  compress_history_short h = ground arith

  -- Above thirty the history splits into an older part, which one system message stands for, and
  -- the last twenty messages, which follow it word for word; the counts reported are those of the
  -- two parts.
  pub compress_history_long :
      30 < length (normalize past)
      → let r = compress_history complete past in
        (older : List Message) × (recent : List Message) × (older ++ recent ≡ normalize past)
        × (length recent ≡ 20)
        × (r.messages ≡ head_message (summarize complete older) older ∷ recent)
        × (r.summarized_count ≡ length older)
        × (r.original_count ≡ r.summarized_count + 20)
  unfolding compress_history
  compress_history_long h =
      let all = normalize past in
      let cut = length all - 20 in
      (
        take cut all,
        drop cut all,
        take-append-drop cut all,
        omega (arith, length-drop cut all),
        ground arith,
        ground arith,
        ground (arith, length-take cut all),
      )

-- The number of messages that speak as the system.
abbrev pub count_system : List Message → ℕ
count_system [] = 0
count_system (m ∷ ms) = (if str_eq m.role "system" then 1 else 0) + count_system ms

pub turn_not_system : (m : Message) → IsTurn m → str_eq m.role "system" ≡ false
turn_not_system m h = elim h.speaks [ inl e ↦ rw e | inr e ↦ rw e ]

count_system_turns : (ms : List Message) → All IsTurn ms → count_system ms ≡ 0
count_system_turns [] h = refl
count_system_turns (m ∷ ms) h =
    rw (turn_not_system m h.0) (omega (arith, count_system_turns ms h.1))

pub head_message_role :
    (s : Option Text) (older : List Message) → (head_message s older).role ≡ "system"
unfolding head_message
head_message_role none older = refl
head_message_role (some t) older = refl

pub head_message_says :
    (s : Option Text) (older : List Message) → is_empty (head_message s older).content ≡ false
unfolding head_message
head_message_says none older = refl
head_message_says (some t) older = refl

-- No stored row can speak as the system: exactly one message has that role, the summary, and only
-- if the history was compressed.
pub count_system-compress_history :
    (complete : Text → Option Text) (past : List PastMessage)
    → let r = compress_history complete past in
      count_system r.messages ≡ (if r.was_compressed then 1 else 0)
unfolding compress_history
count_system-compress_history complete past =
    let all = normalize past in
    let turns = normalize-IsTurn past in
    elim (Bool-cases (leb (length all) 30)) [
      | inl short ↦ rw short (count_system_turns all turns)
      | inr long ↦
          rw (long, head_message_role)
            (omega (
              arith,
              count_system_turns (drop (length all - 20) all)
                  (All-drop IsTurn (length all - 20) all turns),
            ))
    ]
