-- ===== src/Handler/Presence/History.antt =====
-- How somebody came to be logged in, over a history of messages and disconnections.
use tiny_im.Prelude.{
  append_assoc, subst, ◌≡◌, refl, sym, ap, ◌∙◌, ◌⊎◌, inl, inr, Bool, true, false, List, [], ◌∷◌,
  ◌++◌, Option, none, some, if◌then◌else◌, ◌==◌, Bytes, Bool-cases,
}
use tiny_im.Prelude.Int.{ℤ, same_int, same_int_iff}
use tiny_im.Decimal.{to_string}
use tiny_im.Message.{Message}
use tiny_im.Message.Types.{
  MessageType, sign_up, sign_up_response, login, login_response, logout, text, add_friend,
  friend_request, friend_request_response, friend_list, private_chat, group_chat, pull_message,
}
use tiny_im.Message.Json.{JsonLib}
use tiny_im.Database.Pool.{Db, ok}
use tiny_im.Database.Users.{authenticate_user}
use tiny_im.Handler.State.{SessionId, State, Env, find}
use tiny_im.Handler.Sessions.{UniqueKeys}
use tiny_im.Handler.Account.Leaving.{other_than}
use tiny_im.Handler.Dispatch.Keeps.{
  Event, arrives, disconnects, handle, handle_all, handle-UniqueKeys,
}
use tiny_im.Handler.Presence.{Presence, presence, Enters, Allows, Permits, handle-Permits}

module _ (lib : JsonLib) (user : ℤ) (session : SessionId) where
  -- Somewhere in a history that starts in `s` there is a LOGIN message of the user from the session,
  -- with a password that authenticated in the database as it was then.
  pub record LoggedIn (s : State) (es : List Event) : Type 0 where
    pub before : List Event
    pub after : List Event
    pub env : Env
    pub msg : Message
    pub history : es ≡ before ++ (arrives env session msg ∷ after)
    pub is_login : msg.message_type ≡ login
    pub sender : msg.from_user_id ≡ user
    pub db : Db
    pub name : Bytes
    pub authenticated :
        authenticate_user env.engine env.sha256
          (to_string msg.from_user_id)
          msg.content
          (handle_all lib s before).db
        ≡ (db, ok (some name))

  chosen :
      {origin : SessionId} (b : Bool) (o : Option SessionId)
      → b ≡ true
      → (if b then some origin else o) ≡ some session
      → origin ≡ session
  chosen true o e h = cc
  chosen false o e h = cc

  passed :
      (o' : Option SessionId) (b : Bool) (o : Option SessionId)
      → b ≡ false
      → (if b then o' else o) ≡ some session
      → o ≡ some session
  passed o' true o e h = cc
  passed o' false o e h = h

  -- An entry after an event was there before it, or the event is such a message.
  abbrev Came : State → Event → Presence → Type 0
  Came s e p = (p user ≡ some session) ⊎ LoggedIn s (e ∷ [])

  module _ (s : State) (q : Presence) (there : q user ≡ some session) where
    Came-Enters :
        (env : Env) (origin : SessionId) (msg : Message)
        → msg.message_type ≡ login
        → Enters env s.db msg origin (presence s) q
        → Came s (arrives env origin msg) (presence s)
    unfolding handle_all
    Came-Enters env origin msg is_login (db, name, auth, free, entered) =
        elim (Bool-cases (same_int msg.from_user_id user)) [
          | inl self ↦ inr (record {
            before = [];
            after = [];
            env = env;
            msg = msg;
            history =
                ap (λ o. arrives env o msg ∷ []) (chosen _ _ self (sym (entered user) ∙ there));
            is_login = is_login;
            sender = (same_int_iff _ _).0 self;
            db = db;
            name = name;
            authenticated = auth;
          })
          | inr other ↦ inl (passed _ _ _ other (sym (entered user) ∙ there))
        ]

    Came-erased :
        (b : Bool) (o : Option SessionId)
        → (if b then none else o) ≡ some session
        → o ≡ some session
    Came-erased true o h = cc
    Came-erased false o h = h

    Came-dropped :
        (origin : SessionId) (o : Option SessionId)
        → other_than origin o ≡ some session
        → o ≡ some session
    Came-dropped origin none h = h
    Came-dropped origin (some v) h = Came-erased (v == origin) (some v) h

    Came-Allows :
        (t : MessageType) (env : Env) (origin : SessionId) (msg : Message)
        → msg.message_type ≡ t
        → Allows t env s.db msg origin (presence s) q
        → Came s (arrives env origin msg) (presence s)
    Came-Allows login env origin msg e (inl same) = inl (sym (same user) ∙ there)
    Came-Allows login env origin msg e (inr entered) = Came-Enters env origin msg e entered
    Came-Allows logout env origin msg e gone =
        inl (Came-erased (same_int msg.from_user_id user) _ (sym (gone user) ∙ there))
    Came-Allows sign_up env origin msg e same = inl (sym (same user) ∙ there)
    Came-Allows sign_up_response env origin msg e same = inl (sym (same user) ∙ there)
    Came-Allows login_response env origin msg e same = inl (sym (same user) ∙ there)
    Came-Allows text env origin msg e same = inl (sym (same user) ∙ there)
    Came-Allows add_friend env origin msg e same = inl (sym (same user) ∙ there)
    Came-Allows friend_request env origin msg e same = inl (sym (same user) ∙ there)
    Came-Allows friend_request_response env origin msg e same = inl (sym (same user) ∙ there)
    Came-Allows friend_list env origin msg e same = inl (sym (same user) ∙ there)
    Came-Allows private_chat env origin msg e same = inl (sym (same user) ∙ there)
    Came-Allows group_chat env origin msg e same = inl (sym (same user) ∙ there)
    Came-Allows pull_message env origin msg e same = inl (sym (same user) ∙ there)

    Came-Permits : (e : Event) → Permits e s.db (presence s) q → Came s e (presence s)
    Came-Permits (arrives env origin msg) h = Came-Allows msg.message_type env origin msg refl h
    Came-Permits (disconnects origin) h = inl (Came-dropped origin _ (sym (h user) ∙ there))

  nobody : find user [] ≡ some session → ⊥
  unfolding find
  nobody h = cc

  -- A history that is longer at its front or at its end.
  LoggedIn-cons :
      (s : State) (e : Event) (es : List Event) → LoggedIn (handle lib s e) es → LoggedIn s (e ∷ es)
  unfolding handle_all
  LoggedIn-cons s e es h = record {
    before = e ∷ h.before;
    after = h.after;
    env = h.env;
    msg = h.msg;
    history = ap (◌∷◌ e) h.history;
    is_login = h.is_login;
    sender = h.sender;
    db = h.db;
    name = h.name;
    authenticated = h.authenticated;
  }

  LoggedIn-first :
      (s : State) (e : Event) (es : List Event) → LoggedIn s (e ∷ []) → LoggedIn s (e ∷ es)
  LoggedIn-first s e es h = record {
    before = h.before;
    after = h.after ++ es;
    env = h.env;
    msg = h.msg;
    history =
        ap (λ l. l ++ es) h.history
        ∙ append_assoc h.before (arrives h.env session h.msg ∷ h.after) es;
    is_login = h.is_login;
    sender = h.sender;
    db = h.db;
    name = h.name;
    authenticated = h.authenticated;
  }

  -- Whoever is in the session map was there before the history, or came through such a message.
  pub since :
      (s : State) (es : List Event)
      → UniqueKeys s.sessions
      → find user (handle_all lib s es).sessions ≡ some session
      → (find user s.sessions ≡ some session) ⊎ LoggedIn s es
  unfolding handle_all
  since s [] u h = inl h
  since s (e ∷ es) u h = elim (since (handle lib s e) es (handle-UniqueKeys lib s e u) h) [
    | inr later ↦ inr (LoggedIn-cons s e es later)
    | inl there ↦
        elim (Came-Permits s (presence (handle lib s e)) there e (handle-Permits lib s e u)) [
          | inl old ↦ inl old
          | inr now ↦ inr (LoggedIn-first s e es now)
        ]
  ]

  -- Whoever is in the session map after any history of messages and disconnections that began with
  -- nobody logged in is there through a LOGIN message of the history, which came from that
  -- session, named that user and carried a password that authenticated in the database as it was
  -- then.
  pub handle_all-LoggedIn :
      (s : State) (es : List Event)
      → s.sessions ≡ []
      → find user (handle_all lib s es).sessions ≡ some session
      → LoggedIn s es
  handle_all-LoggedIn s es empty h = elim (since s es (subst UniqueKeys (sym empty) tt) h) [
    | inl there ↦ absurd (nobody (ap (find user) (sym empty) ∙ there))
    | inr logged ↦ logged
  ]
