-- ===== src/Examples/Witnesses/OfSession.antt =====
-- A connection that is given two messages, at concrete interleavings.
use tiny_im.Prelude.{◌≡◌, refl, true, List, [], ◌∷◌, codes}
use tiny_im.Message.{Message, to_json}
use tiny_im.Message.Types.{text}
use tiny_im.Session.{
  Session, fresh, returns, Event, asks, runs, writes, write_fails, step, run, begin_write,
  write_front, write, run_send, is_empty, send, run_posted,
}
use tiny_im.Session.Order.{at, WritesInTurn, run-in_order}
use tiny_im.Session.Stall.{run-write_fails}
use tiny_im.Examples.Codec.{codec, or_empty, text_of}
use tiny_im.Examples.World.{message}

abbrev one : Message
one = message 111 222 text (codes "hi")

abbrev two : Message
two = message 222 111 text (codes "yo")

-- Both messages are asked for; the first is being written.
abbrev events : List Event
events = asks one ∷ asks two ∷ runs ∷ []

abbrev busy : Session
busy = at (one ∷ []) (two ∷ []) (text_of one ∷ []) (one ∷ two ∷ []) [] 0

run-events : run codec events (returns fresh) ≡ returns busy
unfolding run step send run_posted run_send is_empty write write_front begin_write to_json text_of
    or_empty codec
run-events = refl

run-in_order_example : WritesInTurn codec (run codec events (returns fresh))
run-in_order_example = run-in_order codec events

run-write_fails_example :
    (s' : Session) × (run codec (write_fails ∷ asks two ∷ runs ∷ writes true ∷ []) (returns busy)
      ≡ returns s')
    × (s'.sent ≡ busy.sent)
    × (s'.in_flight ≡ [])
run-write_fails_example =
    run-write_fails codec events (asks two ∷ runs ∷ writes true ∷ []) busy run-events (λ e. cc)
