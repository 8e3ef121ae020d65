-- ===== src/Handler/Chat.antt =====
-- `sendMessageToUser`, `sendGroupMessage` and `pushMessage`.
pub mod Keeps
pub mod Scripts
pub mod Delivery
use tiny_im.Prelude.{
  ℕ, Bool, true, false, not, List, [], ◌∷◌, ◌++◌, Option, none, some, if◌then◌else◌, ◌==◌, select,
  Bytes, codes, map,
}
use tiny_im.Prelude.Int.{ℤ, pos, next_int}
use tiny_im.Decimal.{to_string}
use tiny_im.Message.{Message, new, get_from_user_id, get_to_user_id, get_message_id, get_content}
use tiny_im.Message.Types.{text, group_chat, message_type_to_string}
use tiny_im.Database.Messages.{store_message, get_recent_messages}
use tiny_im.Database.Pool.{ok}
use tiny_im.Handler.State.{
  SessionId, Effect, sends, closes, State, Env, find, M, bind, ◌>>=◌, ◌>>◌, pure, ask, or_throw,
  emit, lookup_session,
}

-- `for (auto m : messages) session->send(m)`.
send_all : SessionId → List Message → M (Unit {0})
send_all session messages s =
    (record s { effects = s.effects ++ map (sends session) messages }, ok tt)

module _ (env : Env) where
  open env use {engine, now, visits}

  -- The forwarded copy: its own variable, so the id is that of the request and one.
  unfoldable pub forwarded : Message → Message
  forwarded msg =
      new (pos now) (get_from_user_id msg) (get_to_user_id msg) text (next_int (get_message_id msg))
        (get_content msg)

  forward : Message → Option SessionId → M (Unit {0})
  unfolding forwarded
  forward msg none = pure tt
  forward msg (some session) = emit (sends session (forwarded msg))

  unfoldable pub send_message_to_user : Message → M (Unit {0})
  unfolding forward
  send_message_to_user msg = do
    there ← lookup_session (get_to_user_id msg)
    stored ← ask (
        store_message engine now (to_string (get_from_user_id msg)) (to_string (get_to_user_id msg))
          (message_type_to_string text) (get_content msg))
    forward msg there

  unfoldable pub group_message : ℤ → ℤ → Bytes → Message
  group_message from group_id content = new (pos now) from group_id group_chat group_id content

  -- One send for each entry whose session is another one.
  broadcast : Message → SessionId → List (ℤ × SessionId) → List Effect
  broadcast msg session [] = []
  broadcast msg session ((user, other) ∷ m) =
      if other == session
      then broadcast msg session m
      else sends other msg ∷ broadcast msg session m

  -- A sender who is not logged in is logged, and the loop runs all the same.
  unfoldable pub send_group_message : ℤ → ℤ → Bytes → SessionId → M (Unit {0})
  unfolding broadcast group_message
  send_group_message from group_id content session s = (
    record s {
      effects =
          s.effects ++ broadcast (group_message from group_id content) session (visits s.sessions);
    },
    ok tt,
  )

  unfoldable pub push_message : Message → SessionId → M (Unit {0})
  unfolding send_all
  push_message msg session = do
    messages ← ask (get_recent_messages engine now (to_string (get_from_user_id msg)) 1)
    send_all session messages
