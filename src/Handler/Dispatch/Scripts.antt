-- ===== src/Handler/Dispatch/Scripts.antt =====
-- Where the connections go over sequences of messages and disconnections.
use tiny_im.Prelude.{ℕ, ◌+◌, ◌≤◌, List, [], ◌∷◌, arith, length}
use tiny_im.Message.{Message}
use tiny_im.Message.Types.{
  MessageType, sign_up, login, logout, text, add_friend, friend_request_response, friend_list,
  private_chat, group_chat, pull_message,
}
use tiny_im.Message.Json.{JsonLib}
use tiny_im.Database.Pool.{Db}
use tiny_im.Database.Calls.Leaks.{after_all-length}
use tiny_im.Handler.State.{SessionId, State, Env, set_sessions}
use tiny_im.Handler.Scripts.{Queried, Asks, Asks-pure}
use tiny_im.Handler.Account.{handle_disconnection}
use tiny_im.Handler.Account.Scripts.{sign_up-Asks, login_user-Asks, logout_user-Asks}
use tiny_im.Handler.Contacts.Scripts.{add_friend-Asks, ack_add_friend-Asks, send_friend_list-Asks}
use tiny_im.Handler.Chat.Scripts.{
  send_message_to_user-Asks, send_group_message-Asks, push_message-Asks,
}
use tiny_im.Handler.Dispatch.{dispatch, handle_incoming_message}
use tiny_im.Handler.Dispatch.Keeps.{Event, arrives, disconnects, handle, handle_all}

-- How many calls of the database a message makes, by its type: at least, and at most. A request
-- makes none if it is to oneself, a registration if its content is ill-formed.
abbrev pub least : MessageType → ℕ
least login = 1
least text = 1
least private_chat = 1
least friend_list = 1
least pull_message = 1
least _ = 0

abbrev pub most : MessageType → ℕ
most sign_up = 1
most login = 1
most text = 1
most private_chat = 1
most add_friend = 2
most friend_request_response = 1
most friend_list = 2
most pull_message = 1
most _ = 0

module _ (lib : JsonLib) (env : Env) where
  pub dispatch-Asks :
      (t : MessageType) (msg : Message) (session : SessionId)
      → Asks env (least t) (most t) (dispatch lib env t msg session)
  unfolding dispatch
  dispatch-Asks sign_up msg session = sign_up-Asks lib env msg session
  dispatch-Asks login msg session = login_user-Asks lib env msg session
  dispatch-Asks logout msg session = logout_user-Asks env msg.from_user_id session
  dispatch-Asks text msg session = send_message_to_user-Asks env msg
  dispatch-Asks private_chat msg session = send_message_to_user-Asks env msg
  dispatch-Asks add_friend msg session = add_friend-Asks env msg
  dispatch-Asks friend_request_response msg session = ack_add_friend-Asks env msg
  dispatch-Asks friend_list msg session = send_friend_list-Asks env lib msg session
  dispatch-Asks group_chat msg session =
      send_group_message-Asks env msg.from_user_id msg.to_user_id msg.content session
  dispatch-Asks pull_message msg session = push_message-Asks env msg session
  dispatch-Asks _ msg session = Asks-pure tt

-- The calls of an event, and of a history.
abbrev pub least_of : Event → ℕ
least_of (arrives env session msg) = least msg.message_type
least_of (disconnects session) = 0

abbrev pub most_of : Event → ℕ
most_of (arrives env session msg) = most msg.message_type
most_of (disconnects session) = 0

abbrev pub sum_of : (Event → ℕ) → List Event → ℕ
sum_of f [] = 0
sum_of f (e ∷ es) = f e + sum_of f es

Queried-length :
    (env : Env) (l m : ℕ) (a b : Db)
    → Queried env l m a b
    → (length b.pool ≤ length a.pool) × (length a.pool ≤ length b.pool + m)
Queried-length env l m a b c =
    rw c.done (omega (arith, after_all-length env.engine env.sha256 a c.script, c.few))

handle-length :
    (lib : JsonLib) (s : State) (e : Event)
    → let p = (handle lib s e).db.pool in
      (length p ≤ length s.db.pool) × (length s.db.pool ≤ length p + most_of e)
unfolding handle handle_incoming_message handle_disconnection set_sessions
handle-length lib s (arrives env session msg) =
    Queried-length env _ _ s.db _ ((dispatch-Asks lib env msg.message_type msg session).asked s)
handle-length lib s (disconnects session) = (omega arith, omega arith)

-- However messages and disconnections follow one another, and whatever SQLite and the JSON library
-- do, no connection is added to the pool; a friend request and a friend list lose at most two,
-- every other message of a type that asks the database at most one, and a LOGOUT, a group message
-- and a disconnection none.
pub handle_all-length :
    (lib : JsonLib) (s : State) (es : List Event)
    → let p = (handle_all lib s es).db.pool in
      (length p ≤ length s.db.pool) × (length s.db.pool ≤ length p + sum_of most_of es)
unfolding handle_all
handle_all-length lib s [] = (omega arith, omega arith)
handle_all-length lib s (e ∷ es) =
    omega (arith, handle-length lib s e, handle_all-length lib (handle lib s e) es)
