-- ===== src/Handler/Account/Keeps.antt =====
-- The keys of the session map under registration, login, logout and disconnection.
use tiny_im.Prelude.{◌≡◌, refl, Option, none, some, not, select, Bytes}
use tiny_im.Prelude.Int.{ℤ}
use tiny_im.Message.{Message}
use tiny_im.Message.Json.{JsonLib}
use tiny_im.Handler.State.{
  SessionId, State, Env, find, erase, ◌>>=◌, ◌>>◌, set_sessions, lookup_session,
}
use tiny_im.Handler.Sessions.{SessionMap, UniqueKeys, insert-UniqueKeys, select-UniqueKeys}
use tiny_im.Handler.Keeps.{Keeps, keeping, Keeps-set}
use tiny_im.Handler.Account.{
  answer_sign_up, sign_up, answer_login, enter, admit, login_user, leave, logout_user, belongs,
  handle_disconnection,
}

module _ (lib : JsonLib) (env : Env) (P : SessionMap → Type 0) where
  answer_sign_up-Keeps :
      (session : SessionId) (o : Option Bytes) → Keeps P (answer_sign_up lib env session o)
  unfolding answer_sign_up
  answer_sign_up-Keeps session none = search keeping
  answer_sign_up-Keeps session (some id) = search keeping

  -- A registration logs nobody in or out.
  pub sign_up-Keeps : (msg : Message) (session : SessionId) → Keeps P (sign_up lib env msg session)
  unfolding sign_up
  sign_up-Keeps msg session = search (keeping, answer_sign_up-Keeps) depth 8

  pub answer_login-Keeps :
      (id : ℤ) (session : SessionId) (j : lib.Json) → Keeps P (answer_login lib env id session j)
  unfolding answer_login
  answer_login-Keeps id session j = search keeping

module _ (lib : JsonLib) (env : Env) where
  enter_kept :
      (id : ℤ) (session : SessionId) (name : Bytes) (there : Option SessionId) (s : State)
      → find id s.sessions ≡ there
      → UniqueKeys s.sessions
      → UniqueKeys (enter lib env id session name there s).0.sessions
  unfolding enter ◌>>◌ set_sessions
  enter_kept id session name none s e h =
      (answer_login-Keeps lib env UniqueKeys id session _).kept _
        (insert-UniqueKeys id session s.sessions h)
  enter_kept id session name (some other) s e h =
      (answer_login-Keeps lib env UniqueKeys id session _).kept s h

  admit-Keeps :
      (id : ℤ) (session : SessionId) (name : Option Bytes)
      → Keeps UniqueKeys (admit lib env id session name)
  unfolding admit ◌>>=◌ lookup_session
  admit-Keeps id session none = answer_login-Keeps lib env UniqueKeys id session _
  admit-Keeps id session (some name) = record {
    kept = λ s h. enter_kept id session name (find id s.sessions) s refl h;
  }

  pub login_user-Keeps :
      (msg : Message) (session : SessionId) → Keeps UniqueKeys (login_user lib env msg session)
  unfolding login_user
  login_user-Keeps msg session = search (keeping, admit-Keeps)

leave-Keeps :
    (id : ℤ) (session : SessionId) (there : Option SessionId)
    → Keeps UniqueKeys (leave id session there)
unfolding leave ◌>>◌
leave-Keeps id session none = search keeping
leave-Keeps id session (some other) =
    search (keeping, Keeps-set UniqueKeys (erase id) (unfold erase in select-UniqueKeys _))

pub logout_user-Keeps : (id : ℤ) (session : SessionId) → Keeps UniqueKeys (logout_user id session)
unfolding logout_user
logout_user-Keeps id session = search (keeping, leave-Keeps)

pub handle_disconnection-Keeps :
    (session : SessionId) → Keeps UniqueKeys (handle_disconnection session)
unfolding handle_disconnection
handle_disconnection-Keeps session =
    Keeps-set UniqueKeys (select (λ e. not (belongs session e))) (select-UniqueKeys _)
