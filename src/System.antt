-- ===== src/System.antt =====
-- src/Server.cpp, src/Session.cpp and src/BusinessHandler.cpp together: the server, its handler and
-- the outgoing queue of every connection, as one state that the executor moves.
pub mod Lines
pub mod Delivery
pub mod Wires
pub mod Written
use tiny_im.Prelude.{
  Bool, true, false, List, [], ◌∷◌, Option, none, some, if◌then◌else◌, ◌==◌, Bytes,
}
use tiny_im.Message.Json.{JsonLib}
use tiny_im.Handler.State.{SessionId, Effect, sends, closes, Env}
use tiny_im.Session
use tiny_im.Session.{Session, fresh, Outcome, returns, threw, undefined, send}
use tiny_im.Server
use tiny_im.Server.{Server}

-- `shut` says of which connections the stream is no longer open, since `async_close` was called.
pub record System : Type 0 where
  pub server : Server
  pub lines : SessionId → Session
  pub shut : SessionId → Bool

abbrev pub update : (SessionId → Session) → SessionId → Session → SessionId → Session
update lines id s j = if j == id then s else lines j

-- The calls of `send` that a handler made, in their order.
unfoldable pub deliver : List Effect → (SessionId → Session) → SessionId → Session
deliver [] lines = lines
deliver (sends id msg ∷ xs) lines = deliver xs (update lines id (send msg (lines id)))
deliver (closes id ∷ xs) lines = deliver xs lines

-- The calls of `close`: each begins an `async_close`, whose completion is an event of its own, and
-- from then on the stream is not open.
unfoldable pub shut_by : List Effect → (SessionId → Bool) → SessionId → Bool
shut_by [] shut = shut
shut_by (sends id msg ∷ xs) shut = shut_by xs shut
shut_by (closes id ∷ xs) shut = shut_by xs (λ j. if j == id then true else shut j)

-- What a completion of a write finds: the stream is not open once it was closed.
abbrev pub heard : Bool → Session.Event → Session.Event
heard true (Session.writes is_open) = Session.writes false
heard _ e = e

-- What the executor does next: a handshake, a completed read, a completed `async_close`, or an event
-- of the outgoing queue of one connection.
pub data Event : Type 0 where
  connects : SessionId → Bool → Event
  receives : Env → SessionId → Bytes → Event
  closed : SessionId → Event
  works : SessionId → Session.Event → Event

-- The server as it takes the next event: nothing is waiting to be delivered.
unfoldable pub quiet : Server → Server
quiet s = record s { handler = record s.handler { effects = [] } }

-- A handler that waits for ever keeps the one thread: no further event runs.
unfoldable pub after_server : System → Option Server → Option System
unfolding deliver shut_by
after_server w none = none
after_server w (some s) = some (record {
  server = s;
  lines = deliver s.handler.effects w.lines;
  shut = shut_by s.handler.effects w.shut;
})

-- `on_close_` is called by `stop`, whose calls the queue counts.
told : SessionId → Bool → Server → Server
told id same server = if same then server else Server.stop id server

-- An exception that leaves a handler of the executor ends its run.
unfoldable pub after_work : System → SessionId → Outcome → Option System
unfolding told
after_work w id (returns s) = some (record {
  server = told id (s.stops == (w.lines id).stops) w.server;
  lines = update w.lines id s;
  shut = w.shut;
})
after_work w id threw = none
after_work w id undefined = none

module _ (lib : JsonLib) where
  -- A connection that the server accepts is a new `Session`.
  unfoldable pub opened : SessionId → Bool → System → Option Server → Option System
  opened id success w none = none
  opened id true w (some s) = some (record {
    server = s;
    lines = update w.lines id fresh;
    shut = λ j. if j == id then false else w.shut j;
  })
  opened id false w (some s) = some (record w { server = s })

  unfoldable pub step : Event → System → Option System
  unfolding opened
  step (connects id success) w =
      opened id success w (Server.step lib (Server.handshake id success) w.server)
  step (receives env id text) w =
      after_server w (Server.step lib (Server.reads env id text) (quiet w.server))
  step (closed id) w = after_server w (Server.step lib (Server.closed id) (quiet w.server))
  step (works id e) w = after_work w id (Session.step lib (heard (w.shut id) e) (w.lines id))

  unfoldable pub run : List Event → Option System → Option System
  run [] w = w
  run (e ∷ es) none = none
  run (e ∷ es) (some w) = run es (step e w)
