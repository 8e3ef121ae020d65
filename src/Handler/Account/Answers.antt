-- ===== src/Handler/Account/Answers.antt =====
-- What a login is answered, as the receiver reads it, and who is in afterwards.
use tiny_im.Prelude.{
  ◌≡◌, refl, List, [], ◌∷◌, ◌++◌, Option, none, some, if◌then◌else◌, Bytes, codes, same,
}
use tiny_im.Prelude.Int.{ℤ, pos, same_int, next_int}
use tiny_im.Decimal.{to_string}
use tiny_im.Message.{Message, new}
use tiny_im.Message.Types.{login_response}
use tiny_im.Message.Json.{JsonLib, JsonLaws}
use tiny_im.Database.Pool.{Db, ok}
use tiny_im.Database.Users.{authenticate_user}
use tiny_im.Handler.State.{SessionId, sends, State, Env, find}
use tiny_im.Handler.Sessions.{find-insert}
use tiny_im.Handler.Account.{login_failed, login_succeeded, login_user}
use tiny_im.Handler.Account.Login.{response, login_user-enters, login_user-Refused}

module _ (lib : JsonLib) where
  -- The members of the answer: what the authentication returned, and the session that the user has
  -- already, decide them.
  abbrev pub members : Option Bytes → Option SessionId → List (Bytes × Bytes)
  members none there =
      (codes "status", codes "fail")
      ∷ (codes "username", codes " ")
      ∷ (codes "reason", codes "authenticate fail")
      ∷ []
  members (some name) (some other) =
      (codes "status", codes "fail")
      ∷ (codes "username", codes " ")
      ∷ (codes "reason", codes "repeated login")
      ∷ []
  members (some name) none = (codes "status", codes "success") ∷ (codes "username", name) ∷ []

  abbrev pub texts : List (Bytes × Bytes) → List (Bytes × lib.Json)
  texts [] = []
  texts ((k, v) ∷ ms) = (k, lib.of_text v) ∷ texts ms

  -- A receiver who parses the text finds each member.
  abbrev pub Reads : Bytes → List (Bytes × Bytes) → Type 0
  Reads content [] = Unit
  Reads content ((k, v) ∷ ms) =
      ((j : lib.Json) × (lib.parse content ≡ some j) × (lib.get_text j k ≡ some v))
      × Reads content ms

  Reads-members :
      (laws : JsonLaws lib) (o : Option Bytes) (there : Option SessionId) (content : Bytes)
      → lib.dump (lib.object (texts (members o there))) ≡ some content
      → Reads content (members o there)
  unfolding same
  Reads-members laws none there content d =
      let fs = texts (members none there) in
      let parsed = laws.parse-dump (lib.object fs) content d in
      (
        (lib.object fs, parsed, laws.get_text-object fs (codes "status") _ refl),
        (
          (lib.object fs, parsed, laws.get_text-object fs (codes "username") _ refl),
          ((lib.object fs, parsed, laws.get_text-object fs (codes "reason") _ refl), tt),
        ),
      )
  Reads-members laws (some name) (some other) content d =
      let fs = texts (members (some name) (some other)) in
      let parsed = laws.parse-dump (lib.object fs) content d in
      (
        (lib.object fs, parsed, laws.get_text-object fs (codes "status") _ refl),
        (
          (lib.object fs, parsed, laws.get_text-object fs (codes "username") _ refl),
          ((lib.object fs, parsed, laws.get_text-object fs (codes "reason") _ refl), tt),
        ),
      )
  Reads-members laws (some name) none content d =
      let fs = texts (members (some name) none) in
      let parsed = laws.parse-dump (lib.object fs) content d in
      (
        (lib.object fs, parsed, laws.get_text-object fs (codes "status") _ refl),
        ((lib.object fs, parsed, laws.get_text-object fs (codes "username") _ refl), tt),
      )

  -- The session of a user after the login.
  abbrev pub session_after :
      Option Bytes → Option SessionId → ℤ → SessionId → ℤ → Option SessionId → Option SessionId
  session_after (some name) none user session k before =
      if same_int user k then some session else before
  session_after _ there user session k before = before

  module _ (laws : JsonLaws lib) (env : Env) (msg : Message) (session : SessionId) (s : State)
      (db : Db) (content : Bytes) where
    answers :
        (o : Option Bytes) (there : Option SessionId)
        → authenticate_user env.engine env.sha256 (to_string msg.from_user_id) msg.content s.db
          ≡ (db, ok o)
        → find msg.from_user_id s.sessions ≡ there
        → lib.dump (lib.object (texts (members o there))) ≡ some content
        → (k : ℤ)
        → let run = login_user lib env msg session s in
          (run.1 ≡ ok tt)
          × (run.0.effects
              ≡ s.effects ++ sends session (response lib env msg.from_user_id content) ∷ [])
          × (run.0.db ≡ db)
          × (find k run.0.sessions
              ≡ session_after o there msg.from_user_id session k (find k s.sessions))
    unfolding login_failed login_succeeded
    answers none there auth e d k =
        rw
          (login_user-Refused lib env msg session s db content none there
            (codes "authenticate fail") auth e refl d)
          (refl, refl, refl, refl)
    answers (some name) (some other) auth e d k =
        rw
          (login_user-Refused lib env msg session s db content (some name) (some other)
            (codes "repeated login") auth e refl d)
          (refl, refl, refl, refl)
    answers (some name) none auth e d k =
        rw (login_user-enters lib env msg session s db content name auth e d)
          (refl, refl, refl, find-insert msg.from_user_id k session s.sessions)

    -- A LOGIN message is answered with one message to its session, in which a reader finds
    -- "success" and the name if the password authenticates and the user has no session, "fail" and
    -- "repeated login" if it authenticates and the user has one, and "fail" and "authenticate
    -- fail" if it does not authenticate. In the first case, and only then, the session map
    -- changes, and the user has the session of the message. The authentication returns, the answer
    -- can be dumped, and the JSON library keeps its laws.
    pub login_user-answers :
        (o : Option Bytes)
        → authenticate_user env.engine env.sha256 (to_string msg.from_user_id) msg.content s.db
          ≡ (db, ok o)
        → lib.dump (lib.object (texts (members o (find msg.from_user_id s.sessions))))
          ≡ some content
        → (k : ℤ)
        → let run = login_user lib env msg session s in
          let there = find msg.from_user_id s.sessions in
          (run.1 ≡ ok tt)
          × ((m : Message) × (run.0.effects ≡ s.effects ++ sends session m ∷ [])
              × (m.message_type ≡ login_response)
              × (m.to_user_id ≡ pos 0)
              × (m.message_id ≡ next_int env.garbage)
              × Reads m.content (members o there))
          × (run.0.db ≡ db)
          × (find k run.0.sessions
              ≡ session_after o there msg.from_user_id session k (find k s.sessions))
    unfolding new
    login_user-answers o auth d k =
        let there = find msg.from_user_id s.sessions in
        let (returned, sent, database, who) = answers o there auth refl d k in
        (
          returned,
          (
            response lib env msg.from_user_id content,
            sent,
            refl,
            refl,
            refl,
            Reads-members laws o there content d,
          ),
          database,
          who,
        )
