-- ===== src/Handler/Account/Entering.antt =====
-- What a LOGIN message leaves of the session map.
use tiny_im.Prelude.{◌≡◌, refl, ◌⊎◌, inl, inr, Option, none, some, Bytes}
use tiny_im.Decimal.{to_string}
use tiny_im.Message.{Message}
use tiny_im.Message.Json.{JsonLib}
use tiny_im.Database.Pool.{Db, Result, ok, threw, blocked}
use tiny_im.Database.Users.{authenticate_user}
use tiny_im.Handler.State.{
  SessionId, State, Env, find, insert, bind, ◌>>=◌, ◌>>◌, ask, set_sessions, lookup_session,
}
use tiny_im.Handler.Sessions.{SessionMap}
use tiny_im.Handler.Account.{enter, admit, login_user}
use tiny_im.Handler.Account.Keeps.{answer_login-Keeps}

module _ (lib : JsonLib) (env : Env) (msg : Message) (session : SessionId) (s : State) where
  -- Either it stays, or a user who was not in it and whose password authenticates is entered.
  abbrev pub LoginEnds : SessionMap → Type 0
  LoginEnds m =
      (m ≡ s.sessions)
      ⊎ ((db : Db) × (name : Bytes) × (authenticate_user env.engine env.sha256
              (to_string msg.from_user_id) msg.content s.db
            ≡ (db, ok (some name)))
          × (find msg.from_user_id s.sessions ≡ none)
          × (m ≡ insert msg.from_user_id session s.sessions))

  enter-LoginEnds :
      (db : Db) (name : Bytes) (there : Option SessionId)
      → authenticate_user env.engine env.sha256 (to_string msg.from_user_id) msg.content s.db
        ≡ (db, ok (some name))
      → find msg.from_user_id s.sessions ≡ there
      → LoginEnds
          (enter lib env msg.from_user_id session name there (record s { db = db })).0.sessions
  unfolding enter ◌>>◌ ◌>>=◌ bind set_sessions
  enter-LoginEnds db name none auth free = inr (
    db,
    name,
    auth,
    free,
    (answer_login-Keeps lib env (λ m. m ≡ insert msg.from_user_id session s.sessions)
          msg.from_user_id session _).kept
        _ refl,
  )
  enter-LoginEnds db name (some other) auth there =
      inl
        ((answer_login-Keeps lib env (λ m. m ≡ s.sessions) msg.from_user_id session _).kept _ refl)

  bound-LoginEnds :
      (r : Db × Result (Option Bytes))
      → authenticate_user env.engine env.sha256 (to_string msg.from_user_id) msg.content s.db ≡ r
      → LoginEnds
          (bind (record s { db = r.0 }, r.1) (admit lib env msg.from_user_id session)).0.sessions
  unfolding bind admit ◌>>=◌ lookup_session
  bound-LoginEnds (db, threw) auth = inl refl
  bound-LoginEnds (db, blocked) auth = inl refl
  bound-LoginEnds (db, ok none) auth =
      inl
        ((answer_login-Keeps lib env (λ m. m ≡ s.sessions) msg.from_user_id session _).kept _ refl)
  bound-LoginEnds (db, ok (some name)) auth =
      enter-LoginEnds db name (find msg.from_user_id s.sessions) auth refl

  pub login_user-LoginEnds : LoginEnds (login_user lib env msg session s).0.sessions
  unfolding login_user ◌>>=◌ ask
  login_user-LoginEnds = bound-LoginEnds _ refl
