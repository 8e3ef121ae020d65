-- ===== src/Handler/Chat/Keeps.antt =====
-- The session map under the chat messages.
use tiny_im.Prelude.{List, Option, none, some, Bytes}
use tiny_im.Prelude.Int.{ℤ}
use tiny_im.Message.{Message}
use tiny_im.Handler.State.{SessionId, Env}
use tiny_im.Handler.Sessions.{SessionMap}
use tiny_im.Handler.Keeps.{Keeps, keeping}
use tiny_im.Handler.Chat.{forward, send_message_to_user, send_group_message, send_all, push_message}

module _ (env : Env) (P : SessionMap → Type 0) where
  forward-Keeps : (msg : Message) (there : Option SessionId) → Keeps P (forward env msg there)
  unfolding forward
  forward-Keeps msg none = search keeping
  forward-Keeps msg (some session) = search keeping

  pub send_message_to_user-Keeps : (msg : Message) → Keeps P (send_message_to_user env msg)
  unfolding send_message_to_user
  send_message_to_user-Keeps msg = search (keeping, forward-Keeps)

  pub send_group_message-Keeps :
      (from group_id : ℤ) (content : Bytes) (session : SessionId)
      → Keeps P (send_group_message env from group_id content session)
  unfolding send_group_message
  send_group_message-Keeps from group_id content session = record { kept = λ s h. h }

  pub push_message-Keeps :
      (msg : Message) (session : SessionId) → Keeps P (push_message env msg session)
  unfolding push_message send_all
  push_message-Keeps msg session = search (keeping, send_all-Keeps)
    where
      send_all-Keeps : (ms : List Message) → Keeps P (send_all session ms)
      send_all-Keeps ms = record { kept = λ s h. h }
