-- ===== src/Handler/Chat/Scripts.antt =====
-- The calls of the database under the chat messages.
use tiny_im.Prelude.{refl, List, Option, none, some, Bytes}
use tiny_im.Prelude.Int.{ℤ}
use tiny_im.Decimal.{to_string}
use tiny_im.Message.{Message}
use tiny_im.Message.Types.{text, message_type_to_string}
use tiny_im.Database.Calls.{stores, pulls, after}
use tiny_im.Handler.State.{SessionId, Env}
use tiny_im.Handler.Chat.{forward, send_message_to_user, send_group_message, send_all, push_message}
use tiny_im.Handler.Scripts.{Asks, no_calls, Asks-pure, Asks-ask, Asks-emit, Asks-last, Asks-found}

module _ (env : Env) where
  forward-Asks : (msg : Message) (there : Option SessionId) → Asks env 0 0 (forward env msg there)
  unfolding forward
  forward-Asks msg none = Asks-pure tt
  forward-Asks msg (some session) = Asks-emit _

  pub send_message_to_user-Asks : (msg : Message) → Asks env 1 1 (send_message_to_user env msg)
  unfolding send_message_to_user after
  send_message_to_user-Asks msg = Asks-found msg.to_user_id _ λ there.
      Asks-last _ _
        (Asks-ask _
          (stores env.now (to_string msg.from_user_id) (to_string msg.to_user_id)
            (message_type_to_string text) msg.content)
          λ db. refl)
        (λ stored. forward-Asks msg there)

  pub send_group_message-Asks :
      (from group_id : ℤ) (content : Bytes) (session : SessionId)
      → Asks env 0 0 (send_group_message env from group_id content session)
  unfolding send_group_message
  send_group_message-Asks from group_id content session = record { asked = λ s. no_calls s.db }

  send_all-Asks : (session : SessionId) (ms : List Message) → Asks env 0 0 (send_all session ms)
  unfolding send_all
  send_all-Asks session ms = record { asked = λ s. no_calls s.db }

  pub push_message-Asks :
      (msg : Message) (session : SessionId) → Asks env 1 1 (push_message env msg session)
  unfolding push_message after
  push_message-Asks msg session =
      Asks-last _ _ (Asks-ask _ (pulls env.now (to_string msg.from_user_id) 1) λ db. refl)
        (send_all-Asks session)
