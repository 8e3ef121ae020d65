-- ===== src/Server/Endings.antt =====
-- Which sessions the server holds, and whom the handler takes to be logged in.
use tiny_im.Prelude.{
  ◌≡◌, refl, ap, ◌∙◌, subst, Bool, true, false, not, List, [], ◌∷◌, Option, none, some,
  if◌then◌else◌, ◌==◌, ==_iff, inl, inr, Bool-cases, select, Bytes, codes, arith,
}
use tiny_im.Decimal.{to_string}
use tiny_im.Message.{Message, from_json}
use tiny_im.Message.Types.{login}
use tiny_im.Message.Json.{JsonLib}
use tiny_im.Database.Pool.{Db, Result, ok, threw, blocked}
use tiny_im.Database.Users.{authenticate_user}
use tiny_im.Handler.State.{SessionId, State, Env, find, sends}
use tiny_im.Handler.Account.{login_failed}
use tiny_im.Handler.Account.Login.{response, told, with_db, login_user-Refused}
use tiny_im.Handler.Dispatch.{dispatch, handle_incoming_message}
use tiny_im.Server.{
  Server, has, add, remove_session, Event, handshake, reads, fails, closed, settle, receive, stop,
  step, run,
}

-- Whether the last handshake or failure of a session leaves it connected.
abbrev pub connected : Bool → SessionId → List Event → Bool
connected b session [] = b
connected b session (handshake other true ∷ es) =
    connected (if other == session then true else b) session es
connected b session (handshake other false ∷ es) = connected b session es
connected b session (reads env other text ∷ es) = connected b session es
connected b session (fails other ∷ es) =
    connected (if other == session then false else b) session es
connected b session (closed other ∷ es) = connected b session es

has-select :
    (session other : SessionId) (l : List SessionId)
    → has session (select (λ x. not (x == other)) l)
      ≡ (if other == session then false else has session l)
has-select session other [] = ground arith
has-select session other (x ∷ l) =
    ground
      (arith, has-select session other l, ==_iff x other, ==_iff x session, ==_iff other session)

has-add :
    (session other : SessionId) (l : List SessionId)
    → has session (add other l) ≡ (if other == session then true else has session l)
unfolding add
has-add session other l = elim (Bool-cases (has other l)) [
  | inl there ↦ elim (Bool-cases (other == session)) [
    | inl same ↦
        rw (there, same) (subst (λ x. has x l ≡ true) ((==_iff other session).0 same) there)
    | inr differs ↦ rw (there, differs) refl
  ]
  | inr free ↦ rw free (ground arith)
]

-- What holds of the server, unless its thread waits for ever.
abbrev pub UnlessStuck : (Server → Type 0) → Option Server → Type 0
UnlessStuck P none = Unit
UnlessStuck P (some s) = P s

settle-sessions :
    (s : Server) (r : State × Result (Unit {0}))
    → UnlessStuck (λ s'. s'.sessions ≡ s.sessions) (settle s r)
unfolding settle
settle-sessions s (h, ok a) = refl
settle-sessions s (h, threw) = refl
settle-sessions s (h, blocked) = tt

receive-sessions :
    (lib : JsonLib) (env : Env) (session : SessionId) (o : Option Message) (s : Server)
    → UnlessStuck (λ s'. s'.sessions ≡ s.sessions) (receive lib env session o s)
unfolding receive
receive-sessions lib env session none s = refl
receive-sessions lib env session (some msg) s =
    settle-sessions s (handle_incoming_message lib env session msg s.handler)

abbrev pub Holds : SessionId → Bool → Option Server → Type 0
Holds session b = UnlessStuck (λ s. has session s.sessions ≡ b)

-- Unless its thread waits for ever, after any events the server holds a session exactly if its last
-- successful handshake came after its last failure, or if it held the session before and neither
-- happened; reads and completed closes change nothing of it.
pub run-has :
    (lib : JsonLib) (session : SessionId) (es : List Event) (o : Option Server) (b : Bool)
    → Holds session b o
    → Holds session (connected b session es) (run lib es o)
unfolding run step stop remove_session
run-has lib session [] o b h = h
run-has lib session (e ∷ es) none b h = tt
run-has lib session (handshake other true ∷ es) (some s) b h =
    run-has lib session es (step lib (handshake other true) s) _
      (has-add session other s.sessions ∙ ap (λ c. if other == session then true else c) h)
run-has lib session (handshake other false ∷ es) (some s) b h = run-has lib session es (some s) b h
run-has lib session (reads env other text ∷ es) (some s) b h =
    run-has lib session es (step lib (reads env other text) s) b (
      held (receive lib env other (from_json lib text) s)
        (receive-sessions lib env other (from_json lib text) s))
  where
    held : (o : Option Server) → UnlessStuck (λ s'. s'.sessions ≡ s.sessions) o → Holds session b o
    held none k = tt
    held (some s') k = ap (has session) k ∙ h
run-has lib session (fails other ∷ es) (some s) b h =
    run-has lib session es (step lib (fails other) s) _
      (has-select session other s.sessions ∙ ap (λ c. if other == session then false else c) h)
run-has lib session (closed other ∷ es) (some s) b h =
    run-has lib session es (step lib (closed other) s) b h

-- When a connection ends with an error of a read or a write, the server drops its session but the
-- user who was logged in on it keeps the entry in the session map: a login of this user from
-- another session, with a password that authenticates, is refused as repeated, and the map is
-- unchanged. The text of the login is read as a message, and the refusal can be dumped.
pub fails-locks_out :
    (lib : JsonLib) (env : Env) (ended session : SessionId) (text : Bytes) (msg : Message)
    (name content : Bytes) (db : Db) (s : Server)
    → from_json lib text ≡ some msg
    → msg.message_type ≡ login
    → find msg.from_user_id s.handler.sessions ≡ some ended
    → authenticate_user env.engine env.sha256 (to_string msg.from_user_id) msg.content s.handler.db
      ≡ (db, ok (some name))
    → lib.dump (login_failed lib env (codes "repeated login")) ≡ some content
    → (s' : Server) × (run lib (fails ended ∷ reads env session text ∷ []) (some s) ≡ some s')
      × (has ended s'.sessions ≡ false)
      × (s'.handler
          ≡ told lib env
              (with_db lib env s.handler db)
              (sends session (response lib env msg.from_user_id content)))
unfolding run step stop remove_session receive handle_incoming_message dispatch settle
fails-locks_out lib env ended session text msg name content db s read tag there auth dumped =
    let left = remove_session ended s in
    (
      record left {
        handler =
            told lib env (with_db lib env s.handler db)
              (sends session (response lib env msg.from_user_id content));
      },
      ap (λ o. receive lib env session o left) read
          ∙ ap (λ t. settle left (dispatch lib env t msg session s.handler)) tag
          ∙ ap (settle left) (
              login_user-Refused lib env msg session s.handler db content (some name) (some ended)
                (codes "repeated login") auth there refl dumped),
      has-select ended ended s.sessions ∙ rw ((==_iff ended ended).1 refl) refl,
      refl,
    )
