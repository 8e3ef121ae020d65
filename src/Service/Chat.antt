-- ===== src/Service/Chat.antt =====
-- `sendMessageToUser`, `sendGroupMessage` and `pushMessage` do what the service does.
use mathlib.Core.List.{Perm, Mem}
use tiny_im.Prelude.{refl, ap, sym, subst, true, not, List, ◌++◌, map, select, c_str}
use tiny_im.Prelude.Int.{ℤ, pos}
use tiny_im.Decimal.RoundTrip.{c_str-to_string}
use tiny_im.Message.{Message, new}
use tiny_im.Message.Types.{group_chat, pull_message}
use tiny_im.Database.Schema.{StoredMessage}
use tiny_im.Database.Contract.{is_recent}
use tiny_im.Database.Messages.History.{text_of, store_message-healthy}
use tiny_im.Database.Contract.{Represents}
use tiny_im.Database.Contract.Writes.{store_message-Represents}
use tiny_im.Database.Contract.Reads.{read-Represents}
use tiny_im.Database.Contract.Pulls.{get_recent_messages-recent}
use tiny_im.Handler.State.{SessionId, Effect, sends, State, Env, find}
use tiny_im.Handler.Account.{belongs}
use tiny_im.Handler.Chat.{send_message_to_user, send_group_message, push_message, forwarded}
use tiny_im.Handler.Chat.Delivery.{
  send_message_to_user-delivers, send_group_message-select, push_message-sends, delivery,
}
use tiny_im.Message.Json.{JsonLib}
use tiny_im.Service.{Service, Outcome, sender, receiver, talks, copies, Answers}
use tiny_im.Service.Shown.{Shown, Meets, IsFit, CanRead}

module _ (lib : JsonLib) (env : Env) (msg : Message) (session : SessionId) (s : State) (p : Service)
    (fit : IsFit env) (h : Shown s p) where
  pub send_message_to_user-Meets :
      Meets s (send_message_to_user env msg s).0 (talks lib env msg session p)
  send_message_to_user-Meets =
      let stored =
        store_message-healthy fit.works env.now msg.from_user_id msg.to_user_id msg.content s.db
          h.represents.healthy in
      let rep =
        store_message-Represents fit.works env.sha256 env.now (sender msg) (receiver msg) text_of
          msg.content s.db p.view h.represents in
      subst (λ r. Meets s r.0 (talks lib env msg session p))
        (sym (send_message_to_user-delivers env msg s _ true stored))
        (record {
          effects =
              ap (λ m. s.effects ++ delivery (find msg.to_user_id m) (forwarded env msg))
                h.same_sessions;
          shown = record {
            same_sessions = h.same_sessions;
            represents =
                subst (λ r. Represents r.0 (talks lib env msg session p).1.view) stored rep;
          };
        })

  pub send_group_message-Meets :
      (xs : List Effect) × Perm xs (copies lib env msg session p)
      × Meets s
          (send_group_message env msg.from_user_id msg.to_user_id msg.content session s).0
          (xs, p)
  send_group_message-Meets =
      let (xs, ran, perm) =
        send_group_message-select env msg.from_user_id msg.to_user_id msg.content session s
          (fit.visits s.sessions) in
      (
        xs,
        subst
            (λ m. Perm xs (
              map
                (λ (e : ℤ × SessionId). sends e.1 (
                  new (pos env.now) msg.from_user_id msg.to_user_id group_chat msg.to_user_id
                    msg.content))
                (select (λ e. not (belongs session e)) m)))
            h.same_sessions perm,
        subst (λ r. Meets s r.0 (xs, p)) (sym ran)
            (record {
              effects = refl;
              shown = record { same_sessions = h.same_sessions; represents = h.represents };
            }),
      )

  pub push_message-Meets :
      CanRead pull_message env msg s
      → (o : Outcome) × Answers lib env msg session pull_message p o
        × Meets s (push_message env msg session s).0 o
  push_message-Meets readable =
      let id = c_str-to_string msg.from_user_id in
      let legible =
        λ (m : StoredMessage)
            (i : Mem m (select (is_recent env.now 1 (c_str (sender msg))) p.view.talk)).
          readable m (
            subst (λ l. Mem m (select (is_recent env.now 1 (sender msg)) l))
              (sym h.represents.shows.talk_all)
              (subst (λ k. Mem m (select (is_recent env.now 1 k) p.view.talk)) id i)) in
      let (rows, ms, perm, read, eq) =
        get_recent_messages-recent fit.works fit.reads s.db p.view h.represents env.now 1
          (sender msg) legible in
      (
        (map (sends session) ms, p),
        (rows, ms, perm, read, refl),
        subst (λ r. Meets s r.0 (map (sends session) ms, p))
            (sym (push_message-sends env msg session s _ ms eq))
            (record {
              effects = refl;
              shown = record {
                same_sessions = h.same_sessions;
                represents = read-Represents fit.works fit.reads s.db p.view h.represents;
              };
            }),
      )
