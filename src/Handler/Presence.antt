-- ===== src/Handler/Presence.antt =====
-- Who is logged in, as a map and nothing more: what the handler may do to it, and that it does no
-- more.
pub mod History
use tiny_im.Prelude.{
  ◌≡◌, ap, subst, refl, sym, ◌∙◌, ◌⊎◌, inl, inr, Option, none, some, if◌then◌else◌, Bytes,
}
use tiny_im.Prelude.Int.{ℤ, same_int}
use tiny_im.Decimal.{to_string}
use tiny_im.Message.{Message}
use tiny_im.Message.Types.{
  MessageType, sign_up, sign_up_response, login, login_response, logout, text, add_friend,
  friend_request, friend_request_response, friend_list, private_chat, group_chat, pull_message,
}
use tiny_im.Message.Json.{JsonLib}
use tiny_im.Database.Pool.{Db, Result, ok, threw, blocked}
use tiny_im.Database.Users.{authenticate_user}
use tiny_im.Handler.State.{SessionId, State, Env, find, pure}
use tiny_im.Handler.Sessions.{SessionMap, UniqueKeys, find-insert}
use tiny_im.Handler.Account.{login_user, logout_user}
use tiny_im.Handler.Account.Keeps.{sign_up-Keeps}
use tiny_im.Handler.Account.Entering.{LoginEnds, login_user-LoginEnds}
use tiny_im.Handler.Account.Leaving.{logout_user-find, other_than, handle_disconnection-find}
use tiny_im.Handler.Contacts.Keeps.{add_friend-Keeps, ack_add_friend-Keeps, send_friend_list-Keeps}
use tiny_im.Handler.Chat.Keeps.{
  send_message_to_user-Keeps, send_group_message-Keeps, push_message-Keeps,
}
use tiny_im.Handler.Dispatch.{dispatch, handle_incoming_message}
use tiny_im.Handler.Dispatch.Keeps.{Event, arrives, disconnects, handle}

-- The session of each user who is logged in.
abbrev pub Presence : Type 0
Presence = ℤ → Option SessionId

abbrev pub presence : State → Presence
presence s k = find k s.sessions

abbrev pub Same : Presence → Presence → Type 0
Same p q = (k : ℤ) → q k ≡ p k

-- A user who was not logged in is, with this session, and the password that came with the message
-- is the user's.
abbrev pub Enters : Env → Db → Message → SessionId → Presence → Presence → Type 0
Enters env db msg session p q =
    (db' : Db) × (name : Bytes) × (authenticate_user env.engine env.sha256
        (to_string msg.from_user_id) msg.content db
      ≡ (db', ok (some name)))
    × (p msg.from_user_id ≡ none)
    × ((k : ℤ) → q k ≡ (if same_int msg.from_user_id k then some session else p k))

-- What a message of each type may do.
abbrev pub Allows : MessageType → Env → Db → Message → SessionId → Presence → Presence → Type 0
Allows login env db msg session p q = Same p q ⊎ Enters env db msg session p q
Allows logout env db msg session p q =
    (k : ℤ) → q k ≡ (if same_int msg.from_user_id k then none else p k)
Allows _ env db msg session p q = Same p q

abbrev pub Permits : Event → Db → Presence → Presence → Type 0
Permits (arrives env session msg) db p q = Allows msg.message_type env db msg session p q
Permits (disconnects session) db p q = (k : ℤ) → q k ≡ other_than session (p k)

module _ (lib : JsonLib) (env : Env) (msg : Message) (session : SessionId) (s : State) where
  login_user-Allows :
      Allows login env s.db msg session (presence s) (presence (login_user lib env msg session s).0)
  login_user-Allows = elim (login_user-LoginEnds lib env msg session s) [
    | inl kept ↦ inl (λ k. ap (find k) kept)
    | inr (db, name, auth, free, entered) ↦ inr (
      db,
      name,
      auth,
      free,
      (λ k. ap (find k) entered ∙ find-insert msg.from_user_id k session s.sessions),
    )
  ]

  -- The map that a run leaves, where the run keeps it.
  abbrev AsBefore : SessionMap → Type 0
  AsBefore m = m ≡ s.sessions

  dispatch-Allows :
      (t : MessageType)
      → Allows t env s.db msg session (presence s) (presence (dispatch lib env t msg session s).0)
  unfolding dispatch pure
  dispatch-Allows login = login_user-Allows
  dispatch-Allows logout = λ k. (logout_user-find msg.from_user_id session s k).0
  dispatch-Allows sign_up =
      λ k. ap (find k) ((sign_up-Keeps lib env AsBefore msg session).kept s refl)
  dispatch-Allows text =
      λ k. ap (find k) ((send_message_to_user-Keeps env AsBefore msg).kept s refl)
  dispatch-Allows private_chat =
      λ k. ap (find k) ((send_message_to_user-Keeps env AsBefore msg).kept s refl)
  dispatch-Allows add_friend = λ k. ap (find k) ((add_friend-Keeps env AsBefore msg).kept s refl)
  dispatch-Allows friend_request_response =
      λ k. ap (find k) ((ack_add_friend-Keeps env AsBefore msg).kept s refl)
  dispatch-Allows friend_list =
      λ k. ap (find k) ((send_friend_list-Keeps env AsBefore lib msg session).kept s refl)
  dispatch-Allows group_chat = λ k. ap (find k) (
      (send_group_message-Keeps env AsBefore msg.from_user_id msg.to_user_id msg.content
          session).kept
        s refl)
  dispatch-Allows pull_message =
      λ k. ap (find k) ((push_message-Keeps env AsBefore msg session).kept s refl)
  dispatch-Allows sign_up_response = λ k. refl
  dispatch-Allows login_response = λ k. refl
  dispatch-Allows friend_request = λ k. refl

-- If users are unique in the session map, each event does to the map from users to sessions what
-- it may and no more: a LOGIN leaves it, or enters its sender under its own session, who was not
-- in it and whose password authenticates; a LOGOUT takes out the user it names; a disconnection
-- takes out the users of its session; any other message leaves it.
pub handle-Permits :
    (lib : JsonLib) (s : State) (e : Event)
    → UniqueKeys s.sessions
    → Permits e s.db (presence s) (presence (handle lib s e))
unfolding handle handle_incoming_message
handle-Permits lib s (arrives env session msg) h =
    dispatch-Allows lib env msg session s msg.message_type
handle-Permits lib s (disconnects session) h = λ k. (handle_disconnection-find session s k h).0
