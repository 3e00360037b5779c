-- ===== src/Router/Messages/Systems.antt =====
-- Which system text reaches Gemini and Anthropic when the history holds one of its own.
use ai_chat_bot_v.Base.{
  ◌≡◌, ◌∙◌, sym, ap, refl, true, inl, inr, Bool-cases, Option, none, some, List, [], ◌∷◌, ◌++◌,
  str_eq, if◌then◌else◌, arith, All, ◌<◌, length,
}
use ai_chat_bot_v.Base.Text.{Text}
use ai_chat_bot_v.Compressor.{
  PastMessage, Message, head_message, summarize, compress_history, normalize,
}
use ai_chat_bot_v.Compressor.Window.{
  compress_history_long, IsTurn, normalize-IsTurn, turn_not_system, head_message_role,
  head_message_says,
}
use ai_chat_bot_v.Router.Messages.{
  ChatMessage, Turn, from_history, system_part, build_messages, gemini_loop, gemini_request,
  anthropic_loop, truthy, anthropic_payload,
}

-- The text of the last system message, or the one given where there is none.
pub last_system : List ChatMessage → Option Text → Option Text
last_system [] s = s
last_system (m ∷ ms) s = last_system ms (if str_eq m.role "system" then some m.content else s)

-- The messages that do not speak as the system.
pub spoken : List ChatMessage → List ChatMessage
spoken [] = []
spoken (m ∷ ms) = if str_eq m.role "system" then spoken ms else m ∷ spoken ms

gemini_loop_system :
    (ms : List ChatMessage) (s : Option Text) → (gemini_loop ms s).0 ≡ last_system ms s
unfolding gemini_loop last_system
gemini_loop_system [] s = refl
gemini_loop_system (m ∷ ms) s =
    ground (arith, gemini_loop_system ms s, gemini_loop_system ms (some m.content))

-- What goes into the chat does not depend on the system text.
gemini_loop_rest :
    (ms : List ChatMessage) (s other : Option Text)
    → (gemini_loop ms s).1 ≡ (gemini_loop ms other).1
unfolding gemini_loop
gemini_loop_rest [] s other = refl
gemini_loop_rest (m ∷ ms) s other = elim (Bool-cases (str_eq m.role "system")) [
  | inl sys ↦ rw sys
  | inr chat ↦ ground (arith, chat, gemini_loop_rest ms s other)
]

-- A system text in front goes nowhere but into the system's slot.
gemini_loop-system_part :
    (system : Option Text) (ms : List ChatMessage)
    → (gemini_loop (system_part system ++ ms) none).1 ≡ (gemini_loop ms none).1
unfolding gemini_loop
gemini_loop-system_part none ms = refl
gemini_loop-system_part (some t) ms = ground (arith, gemini_loop_rest ms (some t) none)

spoken-system_part :
    (system : Option Text) (ms : List ChatMessage) → spoken (system_part system ++ ms) ≡ spoken ms
unfolding spoken
spoken-system_part none ms = refl
spoken-system_part (some t) ms = ground arith

anthropic_loop_lem :
    (ms : List ChatMessage) (s : Option Text) → anthropic_loop ms s ≡ (last_system ms s, spoken ms)
unfolding anthropic_loop last_system spoken
anthropic_loop_lem [] s = refl
anthropic_loop_lem (m ∷ ms) s =
    ground (arith, anthropic_loop_lem ms s, anthropic_loop_lem ms (some m.content))

-- Of all system messages only the last one reaches Gemini and Anthropic, an empty one counting as
-- none; Anthropic gets every other message, in order.
pub last_system_wins :
    (ms : List ChatMessage)
    → ((gemini_request ms).system_instruction ≡ truthy (last_system ms none))
      × (anthropic_payload ms ≡ (truthy (last_system ms none), spoken ms))
unfolding gemini_request anthropic_payload
last_system_wins ms = (rw (gemini_loop_system ms none), rw (anthropic_loop_lem ms none))

last_system-append :
    (xs ys : List ChatMessage) (s : Option Text)
    → last_system (xs ++ ys) s ≡ last_system ys (last_system xs s)
unfolding last_system
last_system-append [] ys s = refl
last_system-append (x ∷ xs) ys s = last_system-append xs ys _

-- The compressed history as `route` receives it.
abbrev pub as_turns : List Message → List Turn
as_turns [] = []
as_turns (m ∷ ms) = Turn.dict (some m.role) (some m.content) ∷ as_turns ms

last_system_turns :
    (ms : List Message) (s : Option Text)
    → All IsTurn ms
    → last_system (from_history (as_turns ms)) s ≡ s
unfolding last_system from_history
last_system_turns [] s h = refl
last_system_turns (m ∷ ms) s h = rw (turn_not_system m h.0) (last_system_turns ms s h.1)

All-suffix : (xs ys : List Message) → All IsTurn (xs ++ ys) → All IsTurn ys
All-suffix [] ys h = h
All-suffix (x ∷ xs) ys h = All-suffix xs ys h.1

gemini_request-eq :
    (xs ys : List ChatMessage)
    → (gemini_loop xs none).0 ≡ (gemini_loop ys none).0
    → (gemini_loop xs none).1 ≡ (gemini_loop ys none).1
    → gemini_request xs ≡ gemini_request ys
unfolding gemini_request
gemini_request-eq xs ys said told = rw (said, told)

anthropic_payload-eq :
    (xs ys : List ChatMessage)
    → last_system xs none ≡ last_system ys none
    → spoken xs ≡ spoken ys
    → anthropic_payload xs ≡ anthropic_payload ys
anthropic_payload-eq xs ys said told =
    rw ((last_system_wins xs).1, (last_system_wins ys).1, said, told)

module _ (complete : Text → Option Text) (past : List PastMessage) (prompt : Text) where
  -- What `route` builds of the compressed thread and the system prompt of its caller.
  abbrev pub request : Option Text → List ChatMessage
  request system = build_messages prompt system (as_turns (compress_history complete past).messages)

  last_system_request :
      (system : Option Text) (h : Message) (recent : List Message)
      → str_eq h.role "system" ≡ true
      → All IsTurn recent
      → last_system (build_messages prompt system (as_turns (h ∷ recent))) none ≡ some h.content
  unfolding build_messages from_history last_system
  last_system_request system h recent sys turns = rw (
    last_system-append (system_part system),
    sys,
    last_system-append (from_history (as_turns recent)),
    last_system_turns recent _ turns,
  )

  -- Where a long thread is compressed, its head is the last system message, whatever the system
  -- prompt of the caller.
  head_wins :
      30 < length (normalize past)
      → (older : List Message) × ((system : Option Text)
          → last_system (request system) none
            ≡ some (head_message (summarize complete older) older).content)
  head_wins long =
      let (older, recent, split, _, kept, _, _) = compress_history_long complete past long in
      let head = head_message (summarize complete older) older in
      let turns : All IsTurn recent = All-suffix older recent (rw split (normalize-IsTurn past)) in
      (
        older,
        λ system. rw kept (last_system_request system head recent (rw head_message_role) turns),
      )

  same_chat :
      (system other : Option Text)
      → ((gemini_loop (request system) none).1 ≡ (gemini_loop (request other) none).1)
        × (spoken (request system) ≡ spoken (request other))
  unfolding build_messages
  same_chat system other = (
    gemini_loop-system_part system _ ∙ sym (gemini_loop-system_part other _),
    spoken-system_part system _ ∙ sym (spoken-system_part other _),
  )

  -- Once a thread is long enough to be compressed, the system prompt that the caller passes to
  -- `route` reaches neither Gemini nor Anthropic: the message that stands for the older part of the
  -- thread takes its place, and all that is sent to either, the chat and the last prompt included, is
  -- the same for any other system prompt or none.
  pub compression_drops_system_prompt :
      (system other : Option Text)
      → 30 < length (normalize past)
      → (older : List Message) × ((gemini_request (request system)).system_instruction
          ≡ some (head_message (summarize complete older) older).content)
        × ((anthropic_payload (request system)).0
            ≡ some (head_message (summarize complete older) older).content)
        × (gemini_request (request system) ≡ gemini_request (request other))
        × (anthropic_payload (request system) ≡ anthropic_payload (request other))
  compression_drops_system_prompt system other long =
      let (older, wins) = head_wins long in
      let sent : truthy (last_system (request system) none)
          ≡ some (head_message (summarize complete older) older).content =
        rw (wins system, head_message_says) in
      let (gemini, anthropic) = last_system_wins (request system) in
      let same : last_system (request system) none ≡ last_system (request other) none =
        wins system ∙ sym (wins other) in
      let (chat, rest) = same_chat system other in
      (
        older,
        gemini ∙ sent,
        ap (λ (r : Option Text × List ChatMessage). r.0) anthropic ∙ sent,
        gemini_request-eq (request system) (request other)
            (gemini_loop_system (request system) none
              ∙ same
              ∙ sym (gemini_loop_system (request other) none))
            chat,
        anthropic_payload-eq (request system) (request other) same rest,
      )
