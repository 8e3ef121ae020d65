-- ===== src/Handler/Dispatch/Drains.antt =====
-- A server none of whose connections could be opened, over sequences of messages.
use tiny_im.Prelude.{
  ℕ, ◌+◌, ◌≤◌, ◌≡◌, refl, sym, ap, subst, ◌∙◌, ◌⊎◌, inl, inr, List, [], ◌∷◌, Option, none, some,
  arith, length, Bytes,
}
use tiny_im.Prelude.Int.{ℤ}
use tiny_im.Message.{Message}
use tiny_im.Message.Types.{
  MessageType, sign_up, sign_up_response, login, login_response, logout, text, add_friend,
  friend_request, friend_request_response, friend_list, private_chat, group_chat, pull_message,
}
use tiny_im.Message.Json.{JsonLib}
use tiny_im.Database.Schema.{Tables}
use tiny_im.Database.Engine.{Engine}
use tiny_im.Database.Pool.{Connection, Db, ok, blocked}
use tiny_im.Database.Pool.Frame.{left, query-blocked}
use tiny_im.Database.Users.{authenticate_user}
use tiny_im.Database.Users.Accounts.{authenticate_user-blocked, authenticate_user-closed}
use tiny_im.Database.Friends.Calls.{get_friend_pair-blocked}
use tiny_im.Database.Messages.{store_message, get_recent_messages}
use tiny_im.Database.Calls.Leaks.{
  AllClosed, lose, lose-lose, lose-all, lose-AllClosed, after_all-closed,
}
use tiny_im.Handler.State.{SessionId, State, Env, find, set_sessions, lookup_session, ◌>>=◌, bind}
use tiny_im.Handler.Scripts.{Queried}
use tiny_im.Handler.Runs.{run-blocked}
use tiny_im.Handler.Sessions.{UniqueKeys}
use tiny_im.Handler.Account.{login_user, handle_disconnection}
use tiny_im.Handler.Contacts.{send_friend_list}
use tiny_im.Handler.Chat.{send_message_to_user, push_message}
use tiny_im.Handler.Dispatch.{dispatch, handle_incoming_message}
use tiny_im.Handler.Dispatch.Keeps.{Event, arrives, disconnects, handle, handle_all}
use tiny_im.Handler.Dispatch.Scripts.{least, least_of, sum_of, dispatch-Asks}
use tiny_im.Handler.Presence.History.{since}

-- What is left of a database none of whose connections could be opened.
record Drained (least : ℕ) (before later : Db) : Type 0 where
  lost : ℕ
  enough : least ≤ lost
  so_far : later ≡ left before.tables (lose lost before.pool)

Queried-Drained :
    (env : Env) (l m : ℕ) (a b : Db) → AllClosed a.pool → Queried env l m a b → Drained l a b
Queried-Drained env l m a b h c = record {
  lost = length c.script;
  enough = c.enough;
  so_far = c.done ∙ after_all-closed env.engine env.sha256 a.tables a.pool c.script h;
}

handle-Drained :
    (lib : JsonLib) (s : State) (e : Event)
    → AllClosed s.db.pool
    → Drained (least_of e) s.db (handle lib s e).db
unfolding handle handle_incoming_message handle_disconnection set_sessions
handle-Drained lib s (arrives env session msg) h =
    Queried-Drained env _ _ s.db _ h ((dispatch-Asks lib env msg.message_type msg session).asked s)
handle-Drained lib s (disconnects session) h = record {
  lost = 0;
  enough = omega arith;
  so_far = refl;
}

handle_all-Drained :
    (lib : JsonLib) (s : State) (es : List Event)
    → AllClosed s.db.pool
    → Drained (sum_of least_of es) s.db (handle_all lib s es).db
unfolding handle_all
handle_all-Drained lib s [] h = record { lost = 0; enough = omega arith; so_far = refl }
handle_all-Drained lib s (e ∷ es) h =
    let first = handle-Drained lib s e h in
    let s' = handle lib s e in
    let closed =
      subst (λ (d : Db). AllClosed d.pool) (sym first.so_far)
        (lose-AllClosed first.lost s.db.pool h) in
    let next = handle_all-Drained lib s' es closed in
    record {
      lost = first.lost + next.lost;
      enough = omega (arith, first.enough, next.enough);
      so_far =
          next.so_far
          ∙ ap (λ (d : Db). left d.tables (lose next.lost d.pool)) first.so_far
          ∙ ap (left s.db.tables) (lose-lose first.lost next.lost _ s.db.pool refl);
    }

module _ (lib : JsonLib) (env : Env) (s : State) (empty : s.db.pool ≡ []) where
  send_message_to_user-blocked : (msg : Message) → send_message_to_user env msg s ≡ (s, blocked)
  unfolding send_message_to_user store_message ◌>>=◌ lookup_session bind
  send_message_to_user-blocked msg = run-blocked _ _ s (query-blocked env.engine _ _ _ s.db empty)

  -- With an empty pool, a message of a type that always asks the database waits for ever.
  dispatch-blocked :
      (t : MessageType) (msg : Message) (session : SessionId)
      → 1 ≤ least t
      → dispatch lib env t msg session s ≡ (s, blocked)
  unfolding dispatch login_user send_friend_list push_message get_recent_messages
  dispatch-blocked login msg session h =
      run-blocked _ _ s (authenticate_user-blocked env.engine env.sha256 _ _ s.db empty)
  dispatch-blocked text msg session h = send_message_to_user-blocked msg
  dispatch-blocked private_chat msg session h = send_message_to_user-blocked msg
  dispatch-blocked friend_list msg session h =
      run-blocked _ _ s (get_friend_pair-blocked env.engine _ s.db empty)
  dispatch-blocked pull_message msg session h =
      run-blocked _ _ s (query-blocked env.engine _ _ _ s.db empty)
  dispatch-blocked sign_up msg session h = absurd (omega arith)
  dispatch-blocked sign_up_response msg session h = absurd (omega arith)
  dispatch-blocked login_response msg session h = absurd (omega arith)
  dispatch-blocked logout msg session h = absurd (omega arith)
  dispatch-blocked add_friend msg session h = absurd (omega arith)
  dispatch-blocked friend_request msg session h = absurd (omega arith)
  dispatch-blocked friend_request_response msg session h = absurd (omega arith)
  dispatch-blocked group_chat msg session h = absurd (omega arith)

-- If no connection of the pool could be opened, then after messages that ask the database at least
-- as often as the pool has connections, the rows are as they were and the pool is empty, and every
-- later message of a type that always asks the database, a LOGIN among them, waits for ever.
pub handle_all-drains :
    (lib : JsonLib) (s : State) (es : List Event) (env : Env) (session : SessionId) (msg : Message)
    → AllClosed s.db.pool
    → length s.db.pool ≤ sum_of least_of es
    → 1 ≤ least msg.message_type
    → let spent = handle_all lib s es in
      (spent.db ≡ left s.db.tables [])
      × (handle_incoming_message lib env session msg spent ≡ (spent, blocked))
unfolding handle_incoming_message
handle_all-drains lib s es env session msg h few asks =
    let d = handle_all-Drained lib s es h in
    let spent = handle_all lib s es in
    let empty =
      d.so_far ∙ ap (left s.db.tables) (lose-all d.lost s.db.pool (omega (arith, d.enough))) in
    (
      empty,
      dispatch-blocked lib env spent (ap (λ (db : Db). db.pool) empty) msg.message_type msg session
          asks,
    )

module _ (e : Engine) (sha256 : Bytes → Bytes) (id password : Bytes) (later : Db)
    (name : Bytes) where
  authenticates_nobody_pool :
      (t : Tables) (p : List Connection)
      → AllClosed p
      → authenticate_user e sha256 id password (left t p) ≡ (later, ok (some name))
      → ⊥
  authenticates_nobody_pool t [] h a =
      let k = authenticate_user-blocked e sha256 id password (left t []) refl in cc
  authenticates_nobody_pool t (c ∷ rest) h a =
      let k = authenticate_user-closed e sha256 id password t c rest h.0 in cc

  authenticates_nobody :
      (db : Db)
      → AllClosed db.pool
      → authenticate_user e sha256 id password db ≡ (later, ok (some name))
      → ⊥
  authenticates_nobody db h a = authenticates_nobody_pool db.tables db.pool h a

-- If no connection of the pool could be opened and users are unique in the session map, then no
-- history of messages and disconnections changes a row, and it lets nobody in: a user has the
-- session afterwards that the user had before, or none.
pub handle_all-shut_out :
    (lib : JsonLib) (s : State) (es : List Event) (user : ℤ)
    → UniqueKeys s.sessions
    → AllClosed s.db.pool
    → let s' = handle_all lib s es in
      (s'.db.tables ≡ s.db.tables)
      × ((find user s'.sessions ≡ none) ⊎ (find user s'.sessions ≡ find user s.sessions))
handle_all-shut_out lib s es user unique h = (
  ap (λ (db : Db). db.tables) (handle_all-Drained lib s es h).so_far,
  found (find user (handle_all lib s es).sessions) refl,
)
  where
    was_there :
        (v : SessionId)
        → find user (handle_all lib s es).sessions ≡ some v
        → find user s.sessions ≡ some v
    was_there v there = elim (since lib user v s es unique there) [
      | inl old ↦ old
      | inr in_at ↦
          let d = handle_all-Drained lib s in_at.before h in
          absurd (
            authenticates_nobody in_at.env.engine in_at.env.sha256 _ _ in_at.db in_at.name
              (handle_all lib s in_at.before).db
              (subst (λ (db : Db). AllClosed db.pool) (sym d.so_far)
                (lose-AllClosed d.lost s.db.pool h))
              in_at.authenticated)
    ]

    found :
        (o : Option SessionId)
        → find user (handle_all lib s es).sessions ≡ o
        → (find user (handle_all lib s es).sessions ≡ none)
          ⊎ (find user (handle_all lib s es).sessions ≡ find user s.sessions)
    found none e = inl e
    found (some v) e = inr (e ∙ sym (was_there v e))
