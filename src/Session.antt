-- ===== src/Session.antt =====
-- inc/Session.h and src/Session.cpp: the queue of outgoing messages of one connection, which the
-- closures that `send` posts and the completions of `async_write` share. The text in flight is the
-- one that `write` made; the lifetime of the buffer that it passes on is not modelled.
pub mod Order
pub mod Drain
pub mod Stall
pub mod Asked
use tiny_im.Prelude.{
  ℕ, suc, Bool, true, false, List, [], ◌∷◌, ◌++◌, Option, none, some, if◌then◌else◌, Bytes,
}
use tiny_im.Message.{Message, to_json}
use tiny_im.Message.Json.{JsonLib}

-- `write_msgs` is the deque of the source. The executor holds `posted`, the closures of `send` that
-- have not run, and `in_flight`, the texts of the writes that have not completed. `asked`, `sent`
-- and `stops` record what happened: the calls of `send`, the completed writes, the calls of `stop`.
pub record Session : Type 0 where
  pub write_msgs : List Message
  pub posted : List Message
  pub in_flight : List Bytes
  pub asked : List Message
  pub sent : List Bytes
  pub stops : ℕ

abbrev pub fresh : Session
fresh = record { write_msgs = []; posted = []; in_flight = []; asked = []; sent = []; stops = 0 }

-- `threw`: an exception leaves the handler and ends `io_context::run`. `undefined`: `front` or
-- `pop_front` of an empty deque.
pub data Outcome : Type 0 where
  returns : Session → Outcome
  threw : Outcome
  undefined : Outcome

-- What the executor does next. The completion of a write says whether the stream is is_open.
pub data Event : Type 0 where
  asks : Message → Event
  runs : Event
  writes : Bool → Event
  write_fails : Event
  read_fails : Event

unfoldable pub send : Message → Session → Session
send msg s = record s { posted = s.posted ++ msg ∷ []; asked = s.asked ++ msg ∷ [] }

unfoldable pub stop : Session → Session
stop s = record s { stops = suc s.stops }

unfoldable pub is_empty : List Message → Bool
is_empty [] = true
is_empty (m ∷ ms) = false

module _ (lib : JsonLib) where
  unfoldable pub begin_write : Session → Option Bytes → Outcome
  begin_write s none = threw
  begin_write s (some json_data) = returns (record s { in_flight = s.in_flight ++ json_data ∷ [] })

  unfoldable pub write_front : Session → List Message → Outcome
  unfolding begin_write
  write_front s [] = undefined
  write_front s (msg ∷ rest) = begin_write s (to_json lib msg)

  unfoldable pub write : Session → Outcome
  unfolding write_front
  write s = write_front s s.write_msgs

  -- The closure that `send` posts.
  unfoldable pub run_send : Message → Session → Outcome
  unfolding is_empty
  run_send msg s =
      let s' = record s { write_msgs = s.write_msgs ++ msg ∷ [] } in
      if is_empty s.write_msgs then write s' else returns s'

  -- A completion without an error: `pop_front`, and the next message if there is one.
  unfoldable pub complete : Bool → Session → List Message → Outcome
  complete is_open s [] = undefined
  complete is_open s (msg ∷ []) = returns (record s { write_msgs = [] })
  complete is_open s (msg ∷ next ∷ rest) =
      let s' = record s { write_msgs = next ∷ rest } in if is_open then write s' else returns s'

  unfoldable pub run_posted : Session → List Message → Outcome
  run_posted s [] = returns s
  run_posted s (msg ∷ rest) = run_send msg (record s { posted = rest })

  unfoldable pub run_written : Bool → Session → List Bytes → Outcome
  run_written is_open s [] = returns s
  run_written is_open s (text ∷ rest) =
      complete is_open (record s { in_flight = rest; sent = s.sent ++ text ∷ [] }) s.write_msgs

  run_failed : Session → List Bytes → Outcome
  unfolding stop
  run_failed s [] = returns s
  run_failed s (text ∷ rest) = returns (stop (record s { in_flight = rest }))

  -- An event for which nothing is posted or in flight does nothing.
  unfoldable pub step : Event → Session → Outcome
  unfolding send stop run_posted run_written run_failed
  step (asks msg) s = returns (send msg s)
  step runs s = run_posted s s.posted
  step (writes is_open) s = run_written is_open s s.in_flight
  step write_fails s = run_failed s s.in_flight
  step read_fails s = returns (stop s)

  unfoldable pub run : List Event → Outcome → Outcome
  run [] o = o
  run (e ∷ es) (returns s) = run es (step e s)
  run (e ∷ es) threw = threw
  run (e ∷ es) undefined = undefined
