-- ===== src/Handler/Dispatch/Keeps.antt =====
-- The keys of the session map over sequences of messages and disconnections.
use tiny_im.Prelude.{List, [], ◌∷◌}
use tiny_im.Message.{Message}
use tiny_im.Message.Types.{
  MessageType, sign_up, login, logout, text, add_friend, friend_request_response, friend_list,
  private_chat, group_chat, pull_message,
}
use tiny_im.Message.Json.{JsonLib}
use tiny_im.Handler.State.{SessionId, State, Env}
use tiny_im.Handler.Sessions.{UniqueKeys}
use tiny_im.Handler.Keeps.{Keeps, keeping}
use tiny_im.Handler.Account.{handle_disconnection}
use tiny_im.Handler.Account.Keeps.{
  sign_up-Keeps, login_user-Keeps, logout_user-Keeps, handle_disconnection-Keeps,
}
use tiny_im.Handler.Contacts.Keeps.{add_friend-Keeps, ack_add_friend-Keeps, send_friend_list-Keeps}
use tiny_im.Handler.Chat.Keeps.{
  send_message_to_user-Keeps, send_group_message-Keeps, push_message-Keeps,
}
use tiny_im.Handler.Dispatch.{dispatch, handle_incoming_message}

module _ (lib : JsonLib) (env : Env) where
  dispatch-Keeps :
      (t : MessageType) (msg : Message) (session : SessionId)
      → Keeps UniqueKeys (dispatch lib env t msg session)
  unfolding dispatch
  dispatch-Keeps sign_up msg session = sign_up-Keeps lib env UniqueKeys msg session
  dispatch-Keeps login msg session = login_user-Keeps lib env msg session
  dispatch-Keeps logout msg session = logout_user-Keeps msg.from_user_id session
  dispatch-Keeps text msg session = send_message_to_user-Keeps env UniqueKeys msg
  dispatch-Keeps private_chat msg session = send_message_to_user-Keeps env UniqueKeys msg
  dispatch-Keeps add_friend msg session = add_friend-Keeps env UniqueKeys msg
  dispatch-Keeps friend_request_response msg session = ack_add_friend-Keeps env UniqueKeys msg
  dispatch-Keeps friend_list msg session = send_friend_list-Keeps env UniqueKeys lib msg session
  dispatch-Keeps group_chat msg session =
      send_group_message-Keeps env UniqueKeys msg.from_user_id msg.to_user_id msg.content session
  dispatch-Keeps pull_message msg session = push_message-Keeps env UniqueKeys msg session
  dispatch-Keeps _ msg session = search keeping

-- What reaches the handler: a message from a session, under what the run takes from outside, or the
-- end of a session.
pub data Event : Type 0 where
  arrives : Env → SessionId → Message → Event
  disconnects : SessionId → Event

-- The state after an event; an exception is caught by the session, which goes on.
unfoldable pub handle : JsonLib → State → Event → State
handle lib s (arrives env session msg) = (handle_incoming_message lib env session msg s).0
handle lib s (disconnects session) = (handle_disconnection session s).0

unfoldable pub handle_all : JsonLib → State → List Event → State
unfolding handle
handle_all lib s [] = s
handle_all lib s (e ∷ es) = handle_all lib (handle lib s e) es

pub handle-UniqueKeys :
    (lib : JsonLib) (s : State) (e : Event)
    → UniqueKeys s.sessions
    → UniqueKeys (handle lib s e).sessions
unfolding handle handle_incoming_message
handle-UniqueKeys lib s (arrives env session msg) h =
    (dispatch-Keeps lib env msg.message_type msg session).kept s h
handle-UniqueKeys lib s (disconnects session) h = (handle_disconnection-Keeps session).kept s h

-- However messages and disconnections follow one another, and whatever SQLite, the JSON library
-- and the clock do, no user is entered in the session map twice, if this was so before.
pub handle_all-UniqueKeys :
    (lib : JsonLib) (s : State) (es : List Event)
    → UniqueKeys s.sessions
    → UniqueKeys (handle_all lib s es).sessions
unfolding handle_all
handle_all-UniqueKeys lib s [] h = h
handle_all-UniqueKeys lib s (e ∷ es) h =
    handle_all-UniqueKeys lib (handle lib s e) es (handle-UniqueKeys lib s e h)
