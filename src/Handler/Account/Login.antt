-- ===== src/Handler/Account/Login.antt =====
-- Who gets in, and what is answered.
use tiny_im.Prelude.{◌≡◌, ap, sym, ◌∙◌, [], ◌∷◌, ◌++◌, Option, none, some, Bytes, codes}
use tiny_im.Prelude.Int.{ℤ, pos, next_int}
use tiny_im.Decimal.{to_string}
use tiny_im.Message.{Message, new}
use tiny_im.Message.Types.{login_response}
use tiny_im.Message.Json.{JsonLib}
use tiny_im.Database.Pool.{Db, ok}
use tiny_im.Database.Users.{authenticate_user}
use tiny_im.Handler.State.{
  SessionId, Effect, sends, State, Env, find, insert, ◌>>◌, emit, set_sessions,
}
use tiny_im.Handler.Runs.{run-ask, run-or_throw, run-lookup}
use tiny_im.Handler.Account.{
  shadowed_id, login_failed, login_succeeded, answer_login, enter, admit, login_user,
}

-- Why a login is refused: what the authentication returned, the session of the user if there is
-- one, and the reason that the answer states.
abbrev pub Refused : Option Bytes → Option SessionId → Bytes → Type 0
Refused none there reason = reason ≡ codes "authenticate fail"
Refused (some name) none reason = ⊥
Refused (some name) (some other) reason = reason ≡ codes "repeated login"

module _ (lib : JsonLib) (env : Env) where
  -- A response to a login: an object that was dumped to `content`.
  abbrev pub response : ℤ → Bytes → Message
  response id content = new (pos env.now) id (pos 0) login_response (next_int env.garbage) content

  -- The state after one more effect.
  abbrev pub told : State → Effect → State
  told s x = record s { effects = s.effects ++ x ∷ [] }

  abbrev pub with_db : State → Db → State
  with_db s db = record s { db = db }

  module _ (msg : Message) (session : SessionId) (s : State) (db : Db) (content : Bytes) where
    answered :
        (j : lib.Json) (u : State)
        → lib.dump j ≡ some content
        → answer_login lib env msg.from_user_id session j u
          ≡ (told u (sends session (response msg.from_user_id content)), ok tt)
    unfolding answer_login shadowed_id emit
    answered j u d = run-or_throw _ _ u content d

    enter-none :
        (name : Bytes)
        → lib.dump (login_succeeded lib env name) ≡ some content
        → enter lib env msg.from_user_id session name none (with_db s db) ≡ (
          record s {
            sessions = insert msg.from_user_id session s.sessions;
            db = db;
            effects = s.effects ++ sends session (response msg.from_user_id content) ∷ [];
          },
          ok tt,
        )
    unfolding enter ◌>>◌ set_sessions
    enter-none name d = answered (login_succeeded lib env name) _ d

    -- A user whose authentication succeeds, who is not logged in and whose answer can be dumped is
    -- entered under the session of the login message, and this session is sent the success
    -- response, whose message id comes from the uninitialised value and not from the request.
    pub login_user-enters :
        (name : Bytes)
        → authenticate_user env.engine env.sha256 (to_string msg.from_user_id) msg.content s.db
          ≡ (db, ok (some name))
        → find msg.from_user_id s.sessions ≡ none
        → lib.dump (login_succeeded lib env name) ≡ some content
        → login_user lib env msg session s ≡ (
          record s {
            sessions = insert msg.from_user_id session s.sessions;
            db = db;
            effects = s.effects ++ sends session (response msg.from_user_id content) ∷ [];
          },
          ok tt,
        )
    unfolding login_user admit
    login_user-enters name auth free d =
        run-ask _ _ s db (some name) auth
        ∙ run-lookup msg.from_user_id _ _ none free
        ∙ enter-none name d

    -- A failed authentication, and a user who is logged in already, are answered with a failure
    -- that states the reason, if the answer can be dumped, and the session map stays as it is.
    pub login_user-Refused :
        (o : Option Bytes) (there : Option SessionId) (reason : Bytes)
        → authenticate_user env.engine env.sha256 (to_string msg.from_user_id) msg.content s.db
          ≡ (db, ok o)
        → find msg.from_user_id s.sessions ≡ there
        → Refused o there reason
        → lib.dump (login_failed lib env reason) ≡ some content
        → login_user lib env msg session s
          ≡ (told (with_db s db) (sends session (response msg.from_user_id content)), ok tt)
    unfolding login_user admit enter
    login_user-Refused none there reason auth e r d =
        run-ask _ _ s db none auth
        ∙ ap
            (λ b.
              answer_login lib env msg.from_user_id session (login_failed lib env b) (with_db s db))
            (sym r)
        ∙ answered (login_failed lib env reason) (with_db s db) d
    login_user-Refused (some name) none reason auth e r d = elim r [ ]
    login_user-Refused (some name) (some other) reason auth e r d =
        run-ask _ _ s db (some name) auth
        ∙ run-lookup msg.from_user_id _ _ (some other) e
        ∙ ap
            (λ b.
              answer_login lib env msg.from_user_id session (login_failed lib env b) (with_db s db))
            (sym r)
        ∙ answered (login_failed lib env reason) (with_db s db) d
