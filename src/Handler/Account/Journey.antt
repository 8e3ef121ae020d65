-- ===== src/Handler/Account/Journey.antt =====
-- From registration to login, through the texts and numbers that the messages carry.
use tiny_im.Prelude.{ℕ, ◌≡◌, refl, ap, ◌∙◌, [], ◌∷◌, ◌++◌, none, some, arith, Bytes, codes, c_str}
use tiny_im.Prelude.Int.{ℤ, pos, negsuc, next_int, same_int_refl}
use tiny_im.Decimal.{to_string, stoi}
use tiny_im.Decimal.Canonical.{IsId}
use tiny_im.Message.{Message, new}
use tiny_im.Message.Types.{sign_up_response}
use tiny_im.Message.Json.{JsonLib}
use tiny_im.Database.Engine.{Works, ReadsAll}
use tiny_im.Database.Pool.{Db, ok}
use tiny_im.Database.Pool.Frame.{IsHealthy}
use tiny_im.Database.Credentials.{InBounds, generate_uuid}
use tiny_im.Database.Credentials.Shape.{generate_uuid-IsId}
use tiny_im.Database.Users.{register_user, authenticate_user}
use tiny_im.Database.Users.Accounts.{IsFresh, register_user-authenticate_user}
use tiny_im.Handler.State.{SessionId, sends, State, Env, find, emit}
use tiny_im.Handler.Sessions.{find-insert}
use tiny_im.Handler.Runs.{run-ask, run-or_throw}
use tiny_im.Handler.Account.{shadowed_id, answer_sign_up, sign_up, login_succeeded, login_user}
use tiny_im.Handler.Account.Login.{response, told, with_db, login_user-enters}

-- A SIGN_UP message whose content is an object with the two texts.
pub record Asks (lib : JsonLib) (msg : Message) (password username : Bytes) : Type 0 where
  pub json : lib.Json
  pub parsed : lib.parse msg.content ≡ some json
  pub has_password : lib.get_text json (codes "password") ≡ some password
  pub has_username : lib.get_text json (codes "username") ≡ some username

-- A registration that returns an id is answered with it.
pub sign_up-answers :
    (lib : JsonLib) (env : Env) (msg : Message) (session : SessionId) (s : State) (db : Db)
    (password username id : Bytes)
    → Asks lib msg password username
    → register_user env.engine env.sha256 env.random password username s.db ≡ (db, ok (some id))
    → sign_up lib env msg session s ≡ (
      told lib env (with_db lib env s db) (
          sends session
            (new (pos env.now) (negsuc 0) (negsuc 0) sign_up_response (next_int env.garbage) id)),
      ok tt,
    )
unfolding sign_up answer_sign_up shadowed_id emit
sign_up-answers lib env msg session s db password username id a registered =
    run-or_throw _ _ s a.json a.parsed
    ∙ run-or_throw _ _ s password a.has_password
    ∙ run-or_throw _ _ s username a.has_username
    ∙ run-ask _ _ s db (some id) registered

reads-prints : (s : Bytes) (v : ℕ) → IsId s → stoi s ≡ some (pos v) → to_string (pos v) ≡ s
reads-prints s v h e = ap (λ n. to_string n) (ground (arith, h.reads)) ∙ h.prints

result_pair {ℓ κ} : {A : Type ℓ} {B : Type κ} (p : A × B) (b : B) → p.1 ≡ b → p ≡ (p.0, b)
result_pair p b e = λ i. (p.0, e i)

-- The world in which the login arrives: another second, another uninitialised value.
abbrev pub at_login : Env → ℕ → ℤ → Env
at_login env later garbage = record env { now = later; garbage = garbage }

-- Whoever registers with a well-formed request is sent the generated id; a login message whose
-- sender is the int that this id spells, with the same password, is then answered with success
-- under the name as a C string, and the user has the session that sent it. The generated id is
-- fresh, the user is not logged in, the answer can be dumped, the engine works and reads all rows,
-- the random draws are in their bounds and the pool is healthy.
pub sign_up-login_user :
    (lib : JsonLib) (env : Env) (later : ℕ) (garbage : ℤ) (msg entry : Message)
    (session session' : SessionId) (s : State) (password username content : Bytes) (v : ℕ)
    → Works env.engine
    → ReadsAll env.engine
    → IsHealthy s.db
    → InBounds env.random
    → IsFresh (generate_uuid env.random) s.db.tables.users
    → Asks lib msg password username
    → stoi (generate_uuid env.random) ≡ some (pos v)
    → entry.from_user_id ≡ pos v
    → entry.content ≡ password
    → find (pos v) s.sessions ≡ none
    → lib.dump (login_succeeded lib (at_login env later garbage) (c_str username)) ≡ some content
    → let answered = (sign_up lib env msg session s).0 in
      let entered = (login_user lib (at_login env later garbage) entry session' answered).0 in
      (entered.effects
        ≡ (s.effects
            ++ sends session (
                new
                  (pos env.now)
                  (negsuc 0)
                  (negsuc 0)
                  sign_up_response
                  (next_int env.garbage)
                  (generate_uuid env.random))
              ∷ [])
          ++ sends session' (response lib (at_login env later garbage) (pos v) content) ∷ [])
      × (find (pos v) entered.sessions ≡ some session')
sign_up-login_user lib env later garbage msg entry session session' s password username content v w
      reads h b fresh a read sender secret free dumped =
    let id = generate_uuid env.random in
    let env' = at_login env later garbage in
    let spell : to_string entry.from_user_id ≡ id =
      ap to_string sender ∙ reads-prints id v (generate_uuid-IsId env.random b).0 read in
    let registered = register_user env.engine env.sha256 env.random password username s.db in
    let both =
      register_user-authenticate_user w reads env.sha256 env.random s.db password username password
        h b fresh in
    let s1 = told lib env (with_db lib env s registered.0) (
      sends session
        (new (pos env.now) (negsuc 0) (negsuc 0) sign_up_response (next_int env.garbage) id)) in
    let entry_auth =
      authenticate_user env.engine env.sha256 (to_string entry.from_user_id) entry.content
        registered.0 in
    let auth : entry_auth ≡ (entry_auth.0, ok (some (c_str username))) =
      result_pair entry_auth (ok (some (c_str username))) (rw (spell, secret) (both.2 refl)) in
    let e1 =
      sign_up-answers lib env msg session s registered.0 password username id a
        (result_pair registered (ok (some id)) both.0) in
    let e2 =
      login_user-enters lib env' entry session' s1 entry_auth.0 content (c_str username) auth
        (ap (λ k. find k s.sessions) sender ∙ free) dumped in
    rw (e1, e2, sender)
      (refl, find-insert (pos v) (pos v) session' s.sessions ∙ rw (same_int_refl (pos v)))
