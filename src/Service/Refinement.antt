-- ===== src/Service/Refinement.antt =====
-- The handler does what the service does: for each event, and for histories of events.
use tiny_im.Prelude.{refl, ap, ◌∙◌, List, [], ◌∷◌, ◌++◌, append_assoc}
use tiny_im.Message.{Message}
use tiny_im.Message.Types.{
  MessageType, sign_up, sign_up_response, login, login_response, logout, text, add_friend,
  friend_request, friend_request_response, friend_list, private_chat, group_chat, pull_message,
}
use tiny_im.Message.Json.{JsonLib}
use tiny_im.Handler.State.{SessionId, State, Env, pure}
use tiny_im.Handler.Dispatch.{dispatch, handle_incoming_message}
use tiny_im.Handler.Dispatch.Keeps.{Event, arrives, disconnects, handle, handle_all}
use tiny_im.Service.{Service, Outcome, Answers, Serves, History, quiet, next}
use tiny_im.Service.Shown.{Shown, Meets, IsFit, CanRead, IsServed, Meets-silent}
use tiny_im.Service.Accounts.{sign_up-Meets, login_user-Meets}
use tiny_im.Service.Leaving.{logout_user-Meets, handle_disconnection-Meets}
use tiny_im.Service.Contacts.{add_friend-Meets, ack_add_friend-Meets, send_friend_list-Meets}
use tiny_im.Service.Chat.{send_message_to_user-Meets, send_group_message-Meets, push_message-Meets}

module _ (lib : JsonLib) (env : Env) (msg : Message) (session : SessionId) (s : State) (p : Service)
    (fit : IsFit env) (h : Shown s p) where
  dispatch-Answers :
      (t : MessageType)
      → CanRead t env msg s
      → (o : Outcome) × Answers lib env msg session t p o
        × Meets s (dispatch lib env t msg session s).0 o
  unfolding dispatch pure
  dispatch-Answers sign_up c = (_, refl, sign_up-Meets lib env msg session s p fit h)
  dispatch-Answers login c = (_, refl, login_user-Meets lib env msg session s p fit h)
  dispatch-Answers logout c = (_, refl, logout_user-Meets s p h msg.from_user_id session)
  dispatch-Answers text c = (_, refl, send_message_to_user-Meets lib env msg session s p fit h)
  dispatch-Answers private_chat c =
      (_, refl, send_message_to_user-Meets lib env msg session s p fit h)
  dispatch-Answers add_friend c = (_, refl, add_friend-Meets lib env msg session s p fit h)
  dispatch-Answers friend_request_response c =
      (_, refl, ack_add_friend-Meets lib env msg session s p fit h)
  dispatch-Answers friend_list c = send_friend_list-Meets lib env msg session s p fit h
  dispatch-Answers group_chat c =
      let (xs, perm, meets) = send_group_message-Meets lib env msg session s p fit h in
      ((xs, p), (perm, refl), meets)
  dispatch-Answers pull_message c = push_message-Meets lib env msg session s p fit h c
  dispatch-Answers sign_up_response c = (_, refl, Meets-silent s p h)
  dispatch-Answers login_response c = (_, refl, Meets-silent s p h)
  dispatch-Answers friend_request c = (_, refl, Meets-silent s p h)

-- Each event, served in the state in which it comes, is one of the outcomes that the service allows.
pub handle-Serves :
    (lib : JsonLib) (e : Event) (s : State) (p : Service)
    → IsServed e s
    → Shown s p
    → (o : Outcome) × Serves lib e p o × Meets s (handle lib s e) o
unfolding handle handle_incoming_message
handle-Serves lib (arrives env session msg) s p served h =
    dispatch-Answers lib env msg session s p served.0 h msg.message_type served.1
handle-Serves lib (disconnects session) s p served h =
    (_, refl, handle_disconnection-Meets s p h session)

-- Each event is served in the state in which it comes.
abbrev pub AreServed : JsonLib → List Event → State → Type 0
AreServed lib [] s = Unit {0}
AreServed lib (e ∷ es) s = IsServed e s × AreServed lib es (handle lib s e)

pub handle_all-History :
    (lib : JsonLib) (es : List Event) (s : State) (p : Service)
    → AreServed lib es s
    → Shown s p
    → (o : Outcome) × History lib es p o × Meets s (handle_all lib s es) o
unfolding handle_all
handle_all-History lib [] s p served h = (_, quiet p, Meets-silent s p h)
handle_all-History lib (e ∷ es) s p served h =
    let (o, serves, meets) = handle-Serves lib e s p served.0 h in
    let (r, history, rest) = handle_all-History lib es (handle lib s e) o.1 served.1 meets.shown in
    (
      (o.0 ++ r.0, r.1),
      next o.0 r.0 serves history,
      record {
        effects =
            rest.effects ∙ ap (λ xs. xs ++ r.0) meets.effects ∙ append_assoc s.effects o.0 r.0;
        shown = rest.shown;
      },
    )
