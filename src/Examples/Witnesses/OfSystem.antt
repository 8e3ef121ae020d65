-- ===== src/Examples/Witnesses/OfSystem.antt =====
-- User 111 writes to user 222, whose connection has been idle.
use tiny_im.Prelude.{
  ◌≤◌, ◌≡◌, ◌≢◌, false, refl, sym, ap, ◌∙◌, List, [], ◌∷◌, ◌++◌, map, some, arith, codes, length,
}
use tiny_im.Prelude.Int.{pos, same_int, next_int}
use tiny_im.Message.{Message, new, to_json, from_json}
use tiny_im.Message.Types.{private_chat}
use tiny_im.Handler.State.{SessionId, find}
use tiny_im.Session
use tiny_im.Session.{Session, fresh, returns, send}
use tiny_im.Session.Drain.{IsCalm, drain}
use tiny_im.System.{System, Event, receives, works, run}
use tiny_im.System.Delivery.{
  copy, stored, relayed, step-relayed, chat-arrives, send_message_to_user-stored,
}
use tiny_im.Database.Pool.{ok}
use tiny_im.Handler.Chat.{send_message_to_user}
use tiny_im.Handler.Chat.Delivery.{after_send, delivery}
use tiny_im.System.Wires.{given_all, AllFit, run-Wired}
use tiny_im.System.Written.{run-writes_in_order, run-delivers}
use tiny_im.Examples.Codec.{codec, codec-laws, text_of, to_json-text_of, from_json-text_of}
use tiny_im.Examples.World.{env, state, message, engine-Works, db-IsHealthy}

abbrev system : System
system = record {
  server = record { sessions = 1 ∷ 2 ∷ []; handler = state };
  lines = λ id. fresh;
  shut = λ id. false;
}

abbrev chat : Message
chat = message 111 222 private_chat (codes "hi")

chat-arrives_example :
    (w' : System) × (run codec
        (receives env 1 (text_of chat)
          ∷ map (works 2) (drain (send (copy codec env chat) (system.lines 2))))
        (some system)
      ≡ some w')
    × ((w'.lines 2).sent ≡ text_of (copy codec env chat) ∷ [])
    × (from_json codec (text_of (copy codec env chat)) ≡ some (copy codec env chat))
    × ((j : SessionId) → j ≢ 2 → w'.lines j ≡ system.lines j)
    × (w'.server.handler.db ≡ stored codec env chat system.server.handler.db)
chat-arrives_example =
    chat-arrives codec env chat 1 2 (text_of chat) (text_of (copy codec env chat)) system [] []
      codec-laws engine-Works db-IsHealthy (from_json-text_of chat (omega arith)) tt
      (unfold find same_int in refl) refl tt (unfold Session.run in refl) refl
      (to_json-text_of (copy codec env chat)) (unfold next_int new in omega arith)

-- The system after the chat message was read, and what connection 2 was given.
abbrev arrival : List Event
arrival = receives env 1 (text_of chat) ∷ []

abbrev after_arrival : System
after_arrival = relayed codec env chat 2 system

arrives_there : run codec arrival (some system) ≡ some after_arrival
unfolding run
arrives_there =
    step-relayed codec env chat 1 2 (text_of chat) system engine-Works db-IsHealthy
      (from_json-text_of chat (omega arith)) tt (unfold find same_int in refl)

arrival-AllFit : AllFit codec 2 IsCalm (λ m. tt) arrival (some system)
arrival-AllFit = (tt, tt)

copy_given : given_all codec 2 arrival (some system) [] ≡ copy codec env chat ∷ []
copy_given =
    sym
      (run-Wired codec 2 IsCalm (λ m. tt) arrival system after_arrival arrival-AllFit refl
        arrives_there).known
    ∙ unfold send in refl

run-writes_in_order_example :
    let line = after_arrival.lines 2 in
    (done : List Message) × (map (to_json codec) done ≡ map some line.sent)
    × (given_all codec 2 arrival (some system) [] ≡ done ++ (line.write_msgs ++ line.posted))
    × (length line.in_flight ≤ 1)
run-writes_in_order_example =
    run-writes_in_order codec 2 arrival system after_arrival refl arrives_there

run-delivers_example :
    (later : System) × (run codec
        (arrival ++ map (works 2) (drain (after_arrival.lines 2)))
        (some system)
      ≡ some later)
    × ((later.lines 2).sent ≡ text_of (copy codec env chat) ∷ [])
    × ((later.lines 2).write_msgs ≡ [])
    × ((later.lines 2).posted ≡ [])
    × ((k : SessionId) → k ≢ 2 → later.lines k ≡ after_arrival.lines k)
    × (later.server.handler ≡ after_arrival.server.handler)
run-delivers_example =
    run-delivers codec 2 arrival system after_arrival (text_of (copy codec env chat) ∷ [])
      arrival-AllFit refl arrives_there refl
      (ap (map (to_json codec)) copy_given
        ∙ ap (λ o. o ∷ []) (to_json-text_of (copy codec env chat)))

send_message_to_user-stored_example : send_message_to_user env chat state ≡ (
  after_send state
      (stored codec env chat state.db)
      (delivery (find (pos 222) state.sessions) (copy codec env chat)),
  ok tt,
)
send_message_to_user-stored_example =
    send_message_to_user-stored codec env chat state engine-Works db-IsHealthy
