-- ===== src/Handler/Account.antt =====
-- `signUp`, `loginUser`, `logoutUser` and `handleDisconnection`.
pub mod Keeps
pub mod Scripts
pub mod Login
pub mod Answers
pub mod Journey
pub mod Leaving
pub mod Entering
use tiny_im.Prelude.{
  ℕ, Bool, true, false, not, List, [], ◌∷◌, ◌++◌, Option, none, some, if◌then◌else◌, ◌==◌, select,
  Bytes, codes,
}
use tiny_im.Prelude.Int.{ℤ, pos, negsuc, next_int}
use tiny_im.Decimal.{to_string}
use tiny_im.Message.{Message, new, get_from_user_id, get_content}
use tiny_im.Message.Types.{sign_up_response, login_response}
use tiny_im.Message.Json.{JsonLib}
use tiny_im.Database.Users.{register_user, authenticate_user}
use tiny_im.Handler.State.{
  SessionId, Effect, sends, closes, State, Env, find, erase, insert, M, bind, ◌>>=◌, ◌>>◌, pure,
  ask, or_throw, emit, lookup_session, set_sessions,
}

module _ (lib : JsonLib) (env : Env) where
  open lib use {Json, parse, dump, of_text, object, get_text}
  open env use {engine, sha256, random, now, garbage}

  -- `Message msg(…, msg.getMessageId() + 1, …)` declares a message that shadows the parameter, so
  -- the id is computed from the new message itself, before it is initialised.
  unfoldable pub shadowed_id : ℤ
  shadowed_id = next_int garbage

  unfoldable pub answer_sign_up : SessionId → Option Bytes → M (Unit {0})
  unfolding shadowed_id
  answer_sign_up session none = pure tt
  answer_sign_up session (some uuid) =
      emit (sends session (new (pos now) (negsuc 0) (negsuc 0) sign_up_response shadowed_id uuid))

  unfoldable pub sign_up : Message → SessionId → M (Unit {0})
  unfolding answer_sign_up
  sign_up msg session = do
    j ← or_throw (parse (get_content msg))
    password ← or_throw (get_text j (codes "password"))
    username ← or_throw (get_text j (codes "username"))
    uuid ← ask (register_user engine sha256 random password username)
    answer_sign_up session uuid

  -- The JSON object of a login response; `reason` is assigned on failure only.
  unfoldable pub login_failed : Bytes → Json
  login_failed reason = object (
      (codes "status", of_text (codes "fail"))
      ∷ (codes "username", of_text (codes " "))
      ∷ (codes "reason", of_text reason)
      ∷ [])

  unfoldable pub login_succeeded : Bytes → Json
  login_succeeded name =
      object ((codes "status", of_text (codes "success")) ∷ (codes "username", of_text name) ∷ [])

  -- Dump the object into a LOGIN_RESPONSE and send it.
  unfoldable pub answer_login : ℤ → SessionId → Json → M (Unit {0})
  unfolding shadowed_id
  answer_login user_id session j = do
    content ← or_throw (dump j)
    emit (sends session (new (pos now) user_id (pos 0) login_response shadowed_id content))

  unfoldable pub enter : ℤ → SessionId → Bytes → Option SessionId → M (Unit {0})
  unfolding answer_login login_failed login_succeeded
  enter user_id session name (some other) =
      answer_login user_id session (login_failed (codes "repeated login"))
  enter user_id session name none = do
    set_sessions (insert user_id session)
    answer_login user_id session (login_succeeded name)

  unfoldable pub admit : ℤ → SessionId → Option Bytes → M (Unit {0})
  unfolding enter
  admit user_id session none =
      answer_login user_id session (login_failed (codes "authenticate fail"))
  admit user_id session (some name) = do
    there ← lookup_session user_id
    enter user_id session name there

  unfoldable pub login_user : Message → SessionId → M (Unit {0})
  unfolding admit
  login_user msg session = do
    let user_id = get_from_user_id msg
    username ← ask (authenticate_user engine sha256 (to_string user_id) (get_content msg))
    admit user_id session username

-- Both branches close the session; only the first has an entry to erase.
unfoldable pub leave : ℤ → SessionId → Option SessionId → M (Unit {0})
leave user_id session none = emit (closes session)
leave user_id session (some other) = do set_sessions (erase user_id); emit (closes session)

unfoldable pub logout_user : ℤ → SessionId → M (Unit {0})
unfolding leave
logout_user user_id session = do there ← lookup_session user_id; leave user_id session there

-- The loop erases every entry of the session.
abbrev pub belongs : SessionId → ℤ × SessionId → Bool
belongs session e = e.1 == session

unfoldable pub handle_disconnection : SessionId → M (Unit {0})
handle_disconnection session = set_sessions (select (λ e. not (belongs session e)))
