-- ===== src/Handler/Dispatch.antt =====
-- `handleIncomingMessage`.
pub mod Keeps
pub mod Scripts
pub mod Drains
use tiny_im.Message.{Message, get_from_user_id, get_to_user_id, get_message_type, get_content}
use tiny_im.Message.Types.{
  MessageType, sign_up, sign_up_response, login, login_response, logout, text, add_friend,
  friend_request, friend_request_response, friend_list, private_chat, group_chat, pull_message,
}
use tiny_im.Message.Json.{JsonLib}
use tiny_im.Handler.State.{SessionId, Env, M, pure}
use tiny_im.Handler.Account
use tiny_im.Handler.Account.{login_user, logout_user}
use tiny_im.Handler.Contacts
use tiny_im.Handler.Contacts.{ack_add_friend, send_friend_list}
use tiny_im.Handler.Chat.{send_message_to_user, send_group_message, push_message}

module _ (lib : JsonLib) (env : Env) where
  -- The switch; the types that only the server sends fall to its default.
  unfoldable pub dispatch : MessageType → Message → SessionId → M (Unit {0})
  dispatch sign_up msg session = Account.sign_up lib env msg session
  dispatch login msg session = login_user lib env msg session
  dispatch logout msg session = logout_user (get_from_user_id msg) session
  dispatch text msg session = send_message_to_user env msg
  dispatch add_friend msg session = Contacts.add_friend env msg
  dispatch friend_list msg session = send_friend_list lib env msg session
  dispatch friend_request_response msg session = ack_add_friend env msg
  dispatch private_chat msg session = send_message_to_user env msg
  dispatch group_chat msg session =
      send_group_message env (get_from_user_id msg) (get_to_user_id msg) (get_content msg) session
  dispatch pull_message msg session = push_message env msg session
  dispatch _ msg session = pure tt

  unfoldable pub handle_incoming_message : SessionId → Message → M (Unit {0})
  unfolding dispatch
  handle_incoming_message session msg = dispatch (get_message_type msg) msg session
