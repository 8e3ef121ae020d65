-- ===== src/Service/Accounts.antt =====
-- `signUp`, `loginUser`, `logoutUser` and the end of a session do what the service does.
use tiny_im.Prelude.{
  ◌≡◌, refl, ap, sym, subst, ◌∙◌, ◌++◌, Option, none, some, Bytes, codes, append-nil, Option-cases,
  inl, inr,
}
use tiny_im.Decimal.RoundTrip.{c_str-to_string}
use tiny_im.Message.{Message}
use tiny_im.Message.Json.{JsonLib}
use tiny_im.Database.Pool.{Db, ok}
use tiny_im.Database.Pool.Frame.{left, rotate}
use tiny_im.Database.Credentials.{generate_uuid}
use tiny_im.Database.Users.{register_user}
use tiny_im.Database.Contract.{issued, Account, checks, Represents}
use tiny_im.Database.Contract.Users.{register_user-Represents, register_user-issued}
use tiny_im.Database.Contract.Reads.{authenticate_user-checks, read-Represents}
use tiny_im.Handler.State.{SessionId, Effect, State, Env, find, insert, M, ask, or_throw, bind}
use tiny_im.Handler.State
use tiny_im.Handler.Runs.{run-ask}
use tiny_im.Handler.Account.{
  sign_up, answer_sign_up, shadowed_id, login_user, answer_login, admit, enter,
}
use tiny_im.Service.{Service, sender, wanted, welcome, signs_up, reply, logs_in}
use tiny_im.Service.Shown.{Shown, Meets, IsFit, Meets-silent}

module _ (lib : JsonLib) (env : Env) (msg : Message) (session : SessionId) where
  abbrev as_asked : Option (Bytes × Bytes) → State → State
  as_asked none s = s
  as_asked (some (password, username)) s =
      (State.◌>>=◌ (ask (register_user env.engine env.sha256 env.random password username))
        (answer_sign_up lib env session) s).0

  -- A request that is malformed ends in an exception, before the database is asked.
  sign_up-wanted :
      (s : State) → (sign_up lib env msg session s).0 ≡ as_asked (wanted lib env msg session) s
  unfolding sign_up State.◌>>=◌ State.bind or_throw
  sign_up-wanted s = elim (Option-cases (lib.parse msg.content)) [
    | inl n ↦ rw n refl
    | inr (j, p) ↦ elim (Option-cases (lib.get_text j (codes "password"))) [
      | inl n ↦ rw (p, n) refl
      | inr (password, q) ↦ elim (Option-cases (lib.get_text j (codes "username"))) [
        | inl n ↦ rw (p, q, n) refl
        | inr (username, r) ↦ rw (p, q, r) refl
      ]
    ]
  ]

  answered :
      (o : Option Account) (s : State) (db : Db)
      → answer_sign_up lib env session (issued (generate_uuid env.random) o) (record s { db = db })
        ≡ (record s { db = db; effects = s.effects ++ welcome lib env msg session o }, ok tt)
  unfolding answer_sign_up shadowed_id State.pure State.emit
  answered none s db = refl
  answered (some a) s db =
      ap (λ xs. (record s { db = db; effects = xs }, ok tt)) (sym (append-nil s.effects))

  as_asked-Meets :
      (s : State) (p : Service) (o : Option (Bytes × Bytes))
      → IsFit env
      → Shown s p
      → Meets s (as_asked o s) (signs_up lib env msg session p o)
  as_asked-Meets s p none fit h = Meets-silent s p h
  as_asked-Meets s p (some (password, username)) fit h =
      let q = register_user env.engine env.sha256 env.random password username s.db in
      let account = p.view.account (generate_uuid env.random) in
      let issue =
        register_user-issued fit.works env.sha256 env.random password username s.db p.view
          fit.bounds h.represents in
      let ran =
        run-ask (register_user env.engine env.sha256 env.random password username)
          (answer_sign_up lib env session) s q.0 (issued (generate_uuid env.random) account)
          (λ i. (q.0, issue i))
        ∙ answered account s q.0 in
      subst (λ r. Meets s r.0 (signs_up lib env msg session p (some (password, username))))
        (sym ran)
        (record {
          effects = refl;
          shown = record {
            same_sessions = h.same_sessions;
            represents =
                register_user-Represents fit.works env.sha256 env.random password username s.db
                  p.view fit.bounds h.represents;
          };
        })

  pub sign_up-Meets :
      (s : State) (p : Service)
      → IsFit env
      → Shown s p
      → Meets s
          (sign_up lib env msg session s).0
          (signs_up lib env msg session p (wanted lib env msg session))
  sign_up-Meets s p fit h =
      subst (λ t. Meets s t (signs_up lib env msg session p (wanted lib env msg session)))
        (sym (sign_up-wanted s)) (as_asked-Meets s p (wanted lib env msg session) fit h)

  replied :
      (j : lib.Json) (s : State)
      → (answer_login lib env msg.from_user_id session j s).0
        ≡ (record s { effects = s.effects ++ reply lib env msg session (lib.dump j) })
  unfolding answer_login shadowed_id State.◌>>=◌ State.bind or_throw State.emit
  replied j s = elim (Option-cases (lib.dump j)) [
    | inl n ↦ rw n (ap (λ xs. record s { effects = xs }) (sym (append-nil s.effects)))
    | inr (content, d) ↦ rw d refl
  ]

  admit-Meets :
      (s : State) (p : Service) (db : Db) (o : Option Bytes) (there : Option SessionId)
      → s.sessions ≡ p.sessions
      → Represents db p.view
      → find msg.from_user_id s.sessions ≡ there
      → Meets s
          (admit lib env msg.from_user_id session o (record s { db = db })).0
          (logs_in lib env msg session p o there)
  unfolding admit enter State.◌>>=◌ State.bind State.◌>>◌ State.lookup_session State.set_sessions
  admit-Meets s p db none there m r e =
      subst (λ t. Meets s t (logs_in lib env msg session p none there)) (sym (replied _ _))
        (record { effects = refl; shown = record { same_sessions = m; represents = r } })
  admit-Meets s p db (some name) (some other) m r e = rw e (
      subst (λ t. Meets s t (logs_in lib env msg session p (some name) (some other)))
        (sym (replied _ _))
        (record { effects = refl; shown = record { same_sessions = m; represents = r } }))
  admit-Meets s p db (some name) none m r e = rw e (
      subst (λ t. Meets s t (logs_in lib env msg session p (some name) none)) (sym (replied _ _))
        (record {
          effects = refl;
          shown = record { same_sessions = ap (insert msg.from_user_id session) m; represents = r };
        }))

  pub login_user-Meets :
      (s : State) (p : Service)
      → IsFit env
      → Shown s p
      → Meets s (login_user lib env msg session s).0 (
          logs_in lib env msg session p
            (checks env.sha256 msg.content (p.view.account (sender msg)))
            (find msg.from_user_id p.sessions))
  unfolding login_user
  login_user-Meets s p fit h =
      let o = checks env.sha256 msg.content (p.view.account (sender msg)) in
      let auth =
        authenticate_user-checks fit.works fit.reads s.db p.view h.represents env.sha256
          (sender msg) msg.content
        ∙ ap
            (λ k. (
              left s.db.tables (rotate s.db.pool),
              ok (checks env.sha256 msg.content (p.view.account k)),
            ))
            (c_str-to_string msg.from_user_id) in
      subst (λ r. Meets s r.0 (logs_in lib env msg session p o (find msg.from_user_id p.sessions)))
        (sym (run-ask _ _ s (left s.db.tables (rotate s.db.pool)) o auth))
        (admit-Meets s p (left s.db.tables (rotate s.db.pool)) o (find msg.from_user_id p.sessions)
          h.same_sessions (read-Represents fit.works fit.reads s.db p.view h.represents)
          (ap (find msg.from_user_id) h.same_sessions))
