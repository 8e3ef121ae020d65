-- ===== src/Handler/Account/Scripts.antt =====
-- The calls of the database under registration, login, logout and disconnection.
use tiny_im.Prelude.{refl, Option, none, some, arith, Bytes}
use tiny_im.Prelude.Int.{ℤ}
use tiny_im.Decimal.{to_string}
use tiny_im.Message.{Message}
use tiny_im.Message.Json.{JsonLib}
use tiny_im.Database.Calls.{registers, authenticates, after}
use tiny_im.Handler.State.{SessionId, Env, ◌>>◌}
use tiny_im.Handler.Account.{
  answer_sign_up, sign_up, answer_login, enter, admit, login_user, leave, logout_user,
}
use tiny_im.Handler.Scripts.{
  Asks, Asks-pure, Asks-ask, Asks-or_throw, Asks-weaken, Asks-emit, Asks-set, Asks-last, Asks-guard,
  Asks-found,
}

module _ (lib : JsonLib) (env : Env) where
  answer_sign_up-Asks :
      (session : SessionId) (o : Option Bytes) → Asks env 0 0 (answer_sign_up lib env session o)
  unfolding answer_sign_up
  answer_sign_up-Asks session none = Asks-pure tt
  answer_sign_up-Asks session (some id) = Asks-emit _

  -- A registration is one call, if its content is what it should be.
  pub sign_up-Asks :
      (msg : Message) (session : SessionId) → Asks env 0 1 (sign_up lib env msg session)
  unfolding sign_up after
  sign_up-Asks msg session = Asks-guard _ _ (Asks-or_throw _) λ j.
      Asks-guard _ _ (Asks-or_throw _) λ password. Asks-guard _ _ (Asks-or_throw _) λ name.
        Asks-last _ _
          (Asks-weaken _ (omega arith) (omega arith)
            (Asks-ask _ (registers env.random password name) λ db. refl))
          (answer_sign_up-Asks session)

  answer_login-Asks :
      (id : ℤ) (session : SessionId) (j : lib.Json)
      → Asks env 0 0 (answer_login lib env id session j)
  unfolding answer_login
  answer_login-Asks id session j = Asks-guard _ _ (Asks-or_throw _) λ content. Asks-emit _

  enter-Asks :
      (id : ℤ) (session : SessionId) (name : Bytes) (there : Option SessionId)
      → Asks env 0 0 (enter lib env id session name there)
  unfolding enter ◌>>◌
  enter-Asks id session name none = Asks-guard _ _ (Asks-set _) λ _. answer_login-Asks id session _
  enter-Asks id session name (some other) = answer_login-Asks id session _

  admit-Asks :
      (id : ℤ) (session : SessionId) (name : Option Bytes)
      → Asks env 0 0 (admit lib env id session name)
  unfolding admit
  admit-Asks id session none = answer_login-Asks id session _
  admit-Asks id session (some name) = Asks-found id _ (enter-Asks id session name)

  pub login_user-Asks :
      (msg : Message) (session : SessionId) → Asks env 1 1 (login_user lib env msg session)
  unfolding login_user after
  login_user-Asks msg session =
      Asks-last _ _ (Asks-ask _ (authenticates (to_string msg.from_user_id) msg.content) λ db. refl)
        (admit-Asks msg.from_user_id session)

module _ (env : Env) where
  leave-Asks :
      (id : ℤ) (session : SessionId) (there : Option SessionId)
      → Asks env 0 0 (leave id session there)
  unfolding leave ◌>>◌
  leave-Asks id session none = Asks-emit _
  leave-Asks id session (some other) = Asks-guard _ _ (Asks-set _) λ _. Asks-emit _

  pub logout_user-Asks : (id : ℤ) (session : SessionId) → Asks env 0 0 (logout_user id session)
  unfolding logout_user
  logout_user-Asks id session = Asks-found id _ (leave-Asks id session)
