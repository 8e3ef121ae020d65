-- ===== src/Handler/Chat/Delivery.antt =====
-- Who gets a message.
use mathlib.Core.List
use mathlib.Core.List.{Perm}
use mathlib.Core.List.Perm
use tiny_im.Prelude.{
  subst, if◌then◌else◌, ◌==◌, ◌≡◌, refl, ap, sym, ◌∙◌, Bool, true, not, List, [], ◌∷◌, ◌++◌, map,
  Option, none, some, arith, select, Bytes, c_str, append-nil,
}
use tiny_im.Prelude.Int.{ℤ, pos, next_int}
use tiny_im.Decimal.{to_string}
use tiny_im.Message.{Message, new}
use tiny_im.Message.Types.{text, group_chat}
use tiny_im.Database.Engine.{Works}
use tiny_im.Database.Pool.{Db, ok}
use tiny_im.Database.Pool.Frame.{IsHealthy, left, rotate}
use tiny_im.Database.Messages.{append_message, store_message, get_recent_messages}
use tiny_im.Database.Messages.History.{store_message-healthy, text_of}
use tiny_im.Handler.State.{SessionId, Effect, sends, State, Env, find, pure, emit}
use tiny_im.Handler.Sessions.{SessionMap}
use tiny_im.Handler.Runs.{run-ask, run-lookup}
use tiny_im.Handler.Account.{belongs}
use tiny_im.Handler.Chat.{
  forwarded, forward, send_message_to_user, group_message, broadcast, send_group_message, send_all,
  push_message,
}

-- The copy for the receiver, if the receiver has a session.
abbrev pub delivery : Option SessionId → Message → List Effect
delivery none msg = []
delivery (some session) msg = sends session msg ∷ []

abbrev pub after_send : State → Db → List Effect → State
after_send s db xs = record s { db = db; effects = s.effects ++ xs }

forward-eq :
    (env : Env) (msg : Message) (there : Option SessionId) (s : State) (db : Db)
    → forward env msg there (record s { db = db })
      ≡ (after_send s db (delivery there (forwarded env msg)), ok tt)
unfolding forward pure emit
forward-eq env msg none s db =
    ap (λ xs. (record s { db = db; effects = xs }, ok tt)) (sym (append-nil s.effects))
forward-eq env msg (some session) s db = refl

module _ (env : Env) (msg : Message) (s : State) where
  -- Whether or not the message could be stored, it is forwarded to the receiver's session and to no
  -- other, and to nobody if the receiver is not logged in.
  pub send_message_to_user-delivers :
      (db : Db) (stored : Bool)
      → store_message env.engine env.now
          (to_string msg.from_user_id)
          (to_string msg.to_user_id)
          text_of
          msg.content
          s.db
        ≡ (db, ok stored)
      → send_message_to_user env msg s
        ≡ (after_send s db (delivery (find msg.to_user_id s.sessions) (forwarded env msg)), ok tt)
  unfolding send_message_to_user
  send_message_to_user-delivers db stored h =
      run-lookup msg.to_user_id _ s (find msg.to_user_id s.sessions) refl
      ∙ run-ask _ _ s db stored h
      ∙ forward-eq env msg (find msg.to_user_id s.sessions) s db

  -- If the engine works and the pool is healthy, a chat message is stored as the newest row and
  -- forwarded to the receiver's session, if there is one, with its text, its two ids and the next
  -- message id; nobody else is sent anything.
  pub send_message_to_user-healthy :
      Works env.engine
      → IsHealthy s.db
      → send_message_to_user env msg s ≡ (
        after_send s
            (left
              (append_message env.now
                (to_string msg.from_user_id)
                (to_string msg.to_user_id)
                text_of
                (c_str msg.content)
                s.db.tables)
              (rotate s.db.pool))
            (delivery (find msg.to_user_id s.sessions) (
              new
                (pos env.now)
                msg.from_user_id
                msg.to_user_id
                text
                (next_int msg.message_id)
                msg.content)),
        ok tt,
      )
  unfolding forwarded
  send_message_to_user-healthy w h =
      send_message_to_user-delivers _ true
        (store_message-healthy w env.now msg.from_user_id msg.to_user_id msg.content s.db h)

-- What one entry of the session map is sent.
abbrev send_to : Message → SessionId → ℤ × SessionId → Option Effect
send_to msg session e = if e.1 == session then none else some (sends e.1 msg)

broadcast-eq :
    (env : Env) (msg : Message) (session : SessionId) (m : SessionMap)
    → broadcast env msg session m ≡ List.filter_map (send_to msg session) m
unfolding broadcast List.filter_map
broadcast-eq env msg session [] = refl
broadcast-eq env msg session ((k, v) ∷ m) = ground (arith, broadcast-eq env msg session m)

broadcast-select :
    (env : Env) (msg : Message) (session : SessionId) (m : SessionMap)
    → broadcast env msg session m
      ≡ map (λ (e : ℤ × SessionId). sends e.1 msg) (select (λ e. not (belongs session e)) m)
unfolding broadcast
broadcast-select env msg session [] = refl
broadcast-select env msg session ((k, v) ∷ m) = ground (arith, broadcast-select env msg session m)

broadcast-perm :
    (env : Env) (msg : Message) (session : SessionId) (m m' : SessionMap)
    → Perm m m'
    → Perm (broadcast env msg session m) (broadcast env msg session m')
broadcast-perm env msg session m m' p =
    rw (broadcast-eq env msg session m, broadcast-eq env msg session m')
      (Perm.filter_map (send_to msg session) p)

-- A group message goes once to each entry of the session map whose session is not the sender's, in
-- some order, whether or not the sender is logged in; the map and the database stay as they are.
-- The loop visits each entry once.
pub send_group_message-select :
    (env : Env) (from group_id : ℤ) (content : Bytes) (session : SessionId) (s : State)
    → Perm (env.visits s.sessions) s.sessions
    → (xs : List Effect) × (send_group_message env from group_id content session s
        ≡ (after_send s s.db xs, ok tt))
      × Perm xs (
          map
            (λ (e : ℤ × SessionId).
              sends e.1 (new (pos env.now) from group_id group_chat group_id content))
            (select (λ e. not (belongs session e)) s.sessions))
unfolding send_group_message group_message
send_group_message-select env from group_id content session s p =
    let msg : Message = new (pos env.now) from group_id group_chat group_id content in
    (
      broadcast env msg session (env.visits s.sessions),
      refl,
      subst (Perm (broadcast env msg session (env.visits s.sessions)))
          (broadcast-select env msg session s.sessions)
          (broadcast-perm env msg session (env.visits s.sessions) s.sessions p),
    )

pub push_message-sends :
    (env : Env) (msg : Message) (session : SessionId) (s : State) (db : Db) (ms : List Message)
    → get_recent_messages env.engine env.now (to_string msg.from_user_id) 1 s.db ≡ (db, ok ms)
    → push_message env msg session s ≡ (after_send s db (map (sends session) ms), ok tt)
unfolding push_message send_all
push_message-sends env msg session s db ms read = run-ask _ _ s db ms read
