-- ===== src/Sockets/Streams.antt =====
-- websocket_handler.py: the registry of streams, `_register_stream`, `_unregister_stream`,
-- `_should_stop` and `_request_stop`, each of which holds the lock while it runs; and that it follows,
-- for every stream, an automaton of three phases.
use ai_chat_bot_v.Base.{
  ◌≡◌, refl, ◌∙◌, ap, Bool, true, false, not, Option, none, some, List, [], ◌∷◌, String, str_eq,
  if◌then◌else◌, arith, eq_iff,
}
use ai_chat_bot_v.Base.Dict.{
  Dict, lookup, get_or, insert, erase, contains, lookup-insert, lookup-erase,
}

unfoldable pub register_stream : String → Dict Bool → Dict Bool
register_stream sid streams = insert sid false streams

-- `pop(sid, None)`
unfoldable pub unregister_stream : String → Dict Bool → Dict Bool
unregister_stream sid streams = erase sid streams

-- A stream that is not registered should stop.
unfoldable pub should_stop : String → Dict Bool → Bool
should_stop sid streams = get_or sid streams true

unfoldable pub request_stop : String → Dict Bool → Dict Bool
request_stop sid streams = if contains sid streams then insert sid true streams else streams

pub data Operation : Type 0 where
  register : String → Operation
  unregister : String → Operation
  stop : String → Operation

unfoldable pub operate : Operation → Dict Bool → Dict Bool
unfolding register_stream unregister_stream request_stop
operate (register sid) streams = register_stream sid streams
operate (unregister sid) streams = unregister_stream sid streams
operate (stop sid) streams = request_stop sid streams

unfoldable pub operate_all : List Operation → Dict Bool → Dict Bool
operate_all [] streams = streams
operate_all (o ∷ os) streams = operate_all os (operate o streams)

-- The phases of one stream.
pub data Phase : Type 0 where
  unknown : Phase
  running : Phase
  stopping : Phase

abbrev pub advance : Bool → Operation → Phase → Phase
advance false o p = p
advance true (register sid) p = running
advance true (unregister sid) p = unknown
advance true (stop sid) unknown = unknown
advance true (stop sid) running = stopping
advance true (stop sid) stopping = stopping

abbrev pub subject : Operation → String
subject (register sid) = sid
subject (unregister sid) = sid
subject (stop sid) = sid

-- What the operations make of the phase of one stream; those of other streams leave it.
unfoldable pub advance_all : String → List Operation → Phase → Phase
advance_all sid [] p = p
advance_all sid (o ∷ os) p = advance_all sid os (advance (str_eq sid (subject o)) o p)

abbrev pub phase_at : Option Bool → Phase
phase_at none = unknown
phase_at (some false) = running
phase_at (some true) = stopping

abbrev pub phase_of : String → Dict Bool → Phase
phase_of sid streams = phase_at (lookup sid streams)

-- A generation is to go on only in the phase `running`.
abbrev pub is_running : Phase → Bool
is_running unknown = false
is_running running = true
is_running stopping = false

phase_of-stop :
    (sid k : String) (streams : Dict Bool) (o : Option Bool) (b : Bool)
    → lookup k streams ≡ o
    → str_eq sid k ≡ b
    → phase_of sid (request_stop k streams) ≡ advance b (stop k) (phase_of sid streams)
unfolding request_stop
phase_of-stop sid k streams none false e f = ground (arith, e)
phase_of-stop sid k streams (some v) false e f =
    ground (arith, e, lookup-insert sid k true streams, f)
phase_of-stop sid k streams none true e f =
    let g : sid ≡ k = (eq_iff sid k).0 f in ground (arith, g, e)
phase_of-stop sid k streams (some false) true e f =
    let g : sid ≡ k = (eq_iff sid k).0 f in
    ground (arith, g, e, f, lookup-insert sid k true streams)
phase_of-stop sid k streams (some true) true e f =
    let g : sid ≡ k = (eq_iff sid k).0 f in
    ground (arith, g, e, f, lookup-insert sid k true streams)

pub phase_of-operate :
    (sid : String) (o : Operation) (streams : Dict Bool)
    → phase_of sid (operate o streams) ≡ advance (str_eq sid (subject o)) o (phase_of sid streams)
unfolding operate register_stream unregister_stream
phase_of-operate sid (register k) streams = ground (arith, lookup-insert sid k false streams)
phase_of-operate sid (unregister k) streams = ground (arith, lookup-erase sid k streams)
phase_of-operate sid (stop k) streams =
    phase_of-stop sid k streams (lookup k streams) (str_eq sid k) refl refl

-- Whatever operations are made in whatever order, the phase of each stream is what the automaton of
-- that stream makes of them: a registered stream runs until it is asked to stop or unregistered, a
-- request for a stream that is not registered does nothing, and no operation on one stream touches
-- another.
pub phase_of-operate_all :
    (sid : String) (os : List Operation) (streams : Dict Bool)
    → phase_of sid (operate_all os streams) ≡ advance_all sid os (phase_of sid streams)
unfolding operate_all advance_all
phase_of-operate_all sid [] streams = refl
phase_of-operate_all sid (o ∷ os) streams =
    phase_of-operate_all sid os (operate o streams)
    ∙ ap (advance_all sid os) (phase_of-operate sid o streams)

pub running_at :
    (sid : String) (streams : Dict Bool) (o : Option Bool)
    → lookup sid streams ≡ o
    → should_stop sid streams ≡ not (is_running (phase_of sid streams))
unfolding should_stop
running_at sid streams none e = ground (arith, e)
running_at sid streams (some false) e = ground (arith, e)
running_at sid streams (some true) e = ground (arith, e)

-- After any operations a stream is told to stop unless the automaton has it running.
pub should_stop-operate_all :
    (sid : String) (os : List Operation) (streams : Dict Bool)
    → should_stop sid (operate_all os streams)
      ≡ not (is_running (advance_all sid os (phase_of sid streams)))
should_stop-operate_all sid os streams =
    running_at sid (operate_all os streams) (lookup sid (operate_all os streams)) refl
    ∙ ap (λ (p : Phase). not (is_running p)) (phase_of-operate_all sid os streams)
