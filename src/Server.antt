-- ===== src/Server.antt =====
-- inc/Server.h, src/Server.cpp and the reading side of src/Session.cpp: the set of sessions, the
-- one handler that they share, and what becomes of a connection.
pub mod Endings
use tiny_im.Prelude.{
  Bool, true, false, not, List, [], ◌∷◌, Option, none, some, if◌then◌else◌, ◌==◌, select, exists,
  Bytes,
}
use tiny_im.Message.{Message, from_json}
use tiny_im.Message.Json.{JsonLib}
use tiny_im.Database.Pool.{Result, ok, threw, blocked}
use tiny_im.Handler.State.{SessionId, State, Env}
use tiny_im.Handler.Account.{handle_disconnection}
use tiny_im.Handler.Dispatch.{handle_incoming_message}

-- `sessions` is the std::set of shared pointers.
pub record Server : Type 0 where
  pub sessions : List SessionId
  pub handler : State

abbrev pub has : SessionId → List SessionId → Bool
has session l = exists (λ x. x == session) l

-- `insert` of a set.
pub add : SessionId → List SessionId → List SessionId
add session l = if has session l then l else session ∷ l

unfoldable pub remove_session : SessionId → Server → Server
remove_session session s = record s { sessions = select (λ x. not (x == session)) s.sessions }

-- What the executor does next. A handshake tells whether it succeeded; a read brings its text and
-- what the handler takes from outside; `fails` is a read or a write that completes with an error,
-- and `closed` the completion of `async_close`.
pub data Event : Type 0 where
  handshake : SessionId → Bool → Event
  reads : Env → SessionId → Bytes → Event
  fails : SessionId → Event
  closed : SessionId → Event

-- What the handler's run leaves. An exception is caught and logged; a wait that does not end keeps
-- the one thread, and nothing runs after it.
unfoldable pub settle : Server → State × Result (Unit {0}) → Option Server
settle s (h, ok a) = some (record s { handler = h })
settle s (h, threw) = some (record s { handler = h })
settle s (h, blocked) = none

-- An exception of `fromJson` is caught and logged, too.
unfoldable pub receive : JsonLib → Env → SessionId → Option Message → Server → Option Server
unfolding settle
receive lib env session none s = some s
receive lib env session (some msg) s =
    settle s (handle_incoming_message lib env session msg s.handler)

-- `stop` closes the stream and calls `on_close_`, which is `removeSession`.
unfoldable pub stop : SessionId → Server → Server
unfolding remove_session
stop session s = remove_session session s

unfoldable pub step : JsonLib → Event → Server → Option Server
unfolding add receive stop
step lib (handshake session true) s = some (record s { sessions = add session s.sessions })
step lib (handshake session false) s = some s
step lib (reads env session text) s = receive lib env session (from_json lib text) s
step lib (fails session) s = some (stop session s)
step lib (closed session) s =
    some (record s { handler = (handle_disconnection session s.handler).0 })

unfoldable pub run : JsonLib → List Event → Option Server → Option Server
unfolding step
run lib [] o = o
run lib (e ∷ es) none = none
run lib (e ∷ es) (some s) = run lib es (step lib e s)
