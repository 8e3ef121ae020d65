-- ===== src/Service/Memory.antt =====
-- What the service never forgets: accounts and the conversation.
use tiny_im.Prelude.{
  ◌≡◌, refl, sym, ap, subst, ◌∙◌, Bool, true, false, List, [], ◌++◌, Option, none, some, arith,
  Bytes, c_str, append-nil, append_assoc, same, same_iff, codes, Bool-cases, inl, inr,
}
use tiny_im.Prelude.Int.{same_int}
use tiny_im.Message.{Message}
use tiny_im.Message.Types.{
  MessageType, sign_up, sign_up_response, login, login_response, logout, text, add_friend,
  friend_request, friend_request_response, friend_list, private_chat, group_chat, pull_message,
}
use tiny_im.Message.Json.{JsonLib}
use tiny_im.Database.Schema.{StoredMessage}
use tiny_im.Database.Engine.{Engine, Works, ReadsAll}
use tiny_im.Database.Pool.{ok}
use tiny_im.Database.Users.{authenticate_user}
use tiny_im.Database.Contract.Reads.{authenticate_user-checks}
use tiny_im.Database.Contract.{checks, Account, View, does, enroll}
use tiny_im.Handler.State.{SessionId, State, Env}
use tiny_im.Handler.Dispatch.Keeps.{Event, arrives, disconnects, handle_all}
use tiny_im.Service.{
  Service, Outcome, wanted, signs_up, logs_in, talks, befriends, answers_request, Answers, Serves,
  History, quiet, next,
}
use tiny_im.Service.Shown.{Shown}
use tiny_im.Service.Refinement.{AreServed, handle_all-History}

pub record Remembers (v w : View) : Type 0 where
  pub accounts : (id : Bytes) (a : Account) → v.account id ≡ some a → w.account id ≡ some a
  pub talk : (more : List StoredMessage) × (w.talk ≡ v.talk ++ more)

Remembers-refl : (v : View) → Remembers v v
Remembers-refl v = record { accounts = λ id a e. e; talk = ([], sym (append-nil v.talk)) }

Remembers-trans : {u v w : View} → Remembers u v → Remembers v w → Remembers u w
Remembers-trans {u} r s = record {
  accounts = λ id a e. s.accounts id a (r.accounts id a e);
  talk = (
    r.talk.0 ++ s.talk.0,
    s.talk.1 ∙ ap (λ l. l ++ s.talk.0) r.talk.1 ∙ append_assoc u.talk r.talk.0 s.talk.0,
  );
}

enroll-Remembers :
    (id : Bytes) (a : Account) (o : Option Account) (v : View)
    → v.account id ≡ o
    → Remembers v (enroll id a o v)
enroll-Remembers id a (some taken) v e = Remembers-refl v
enroll-Remembers id a none v e = record {
  accounts = λ k b h. ground (arith, same_iff id k);
  talk = ([], sym (append-nil v.talk));
}

-- The calls that a handler makes.
module _ (lib : JsonLib) (env : Env) (msg : Message) (session : SessionId) (p : Service) where
  abbrev Keeps : Outcome → Type 0
  Keeps o = Remembers p.view o.1.view

  signs_up-Keeps : (o : Option (Bytes × Bytes)) → Keeps (signs_up lib env msg session p o)
  unfolding does
  signs_up-Keeps none = Remembers-refl p.view
  signs_up-Keeps (some (password, username)) = enroll-Remembers _ _ _ p.view refl

  logs_in-Keeps :
      (o : Option Bytes) (there : Option SessionId) → Keeps (logs_in lib env msg session p o there)
  logs_in-Keeps none there = Remembers-refl p.view
  logs_in-Keeps (some name) none = Remembers-refl p.view
  logs_in-Keeps (some name) (some other) = Remembers-refl p.view

  talks-Keeps : Keeps (talks lib env msg session p)
  unfolding does
  talks-Keeps = record { accounts = λ id a e. e; talk = (_, refl) }

  befriends-Keeps : (b : Bool) → Keeps (befriends lib env msg session p b)
  unfolding does
  befriends-Keeps true = Remembers-refl p.view
  befriends-Keeps false = record {
    accounts = λ id a e. e;
    talk = ([], sym (append-nil p.view.talk));
  }

  answers_request-Keeps : Keeps (answers_request lib env msg session p)
  unfolding does
  answers_request-Keeps = elim (Bool-cases (same msg.content (codes "reject"))) [
    | inl y ↦ rw y (record { accounts = λ id a e. e; talk = ([], sym (append-nil p.view.talk)) })
    | inr n ↦ elim (Bool-cases (same msg.content (codes "accept"))) [
      | inl y ↦
          rw (n, y) (record { accounts = λ id a e. e; talk = ([], sym (append-nil p.view.talk)) })
      | inr m ↦ rw (n, m) (Remembers-refl p.view)
    ]
  ]

  Answers-Keeps : (t : MessageType) (o : Outcome) → Answers lib env msg session t p o → Keeps o
  Answers-Keeps sign_up o e = subst Keeps (sym e) (signs_up-Keeps (wanted lib env msg session))
  Answers-Keeps login o e = subst Keeps (sym e) (logs_in-Keeps _ _)
  Answers-Keeps logout o e = subst Keeps (sym e) (Remembers-refl p.view)
  Answers-Keeps text o e = subst Keeps (sym e) talks-Keeps
  Answers-Keeps private_chat o e = subst Keeps (sym e) talks-Keeps
  Answers-Keeps add_friend o e =
      subst Keeps (sym e) (befriends-Keeps (same_int msg.from_user_id msg.to_user_id))
  Answers-Keeps friend_request_response o e = subst Keeps (sym e) answers_request-Keeps
  Answers-Keeps friend_list o (ids, pairs, exact, up, e) =
      subst Keeps (sym e) (Remembers-refl p.view)
  Answers-Keeps group_chat o (perm, e) =
      subst (λ q. Remembers p.view q.view) (sym e) (Remembers-refl p.view)
  Answers-Keeps pull_message o (rows, ms, perm, read, e) =
      subst Keeps (sym e) (Remembers-refl p.view)
  Answers-Keeps sign_up_response o e = subst Keeps (sym e) (Remembers-refl p.view)
  Answers-Keeps login_response o e = subst Keeps (sym e) (Remembers-refl p.view)
  Answers-Keeps friend_request o e = subst Keeps (sym e) (Remembers-refl p.view)

Serves-Remembers :
    (lib : JsonLib) (e : Event) (p : Service) (o : Outcome)
    → Serves lib e p o
    → Remembers p.view o.1.view
Serves-Remembers lib (arrives env session msg) p o a =
    Answers-Keeps lib env msg session p msg.message_type o a
Serves-Remembers lib (disconnects session) p o e =
    subst (λ o. Remembers p.view o.1.view) (sym e) (Remembers-refl p.view)

History-Remembers :
    {lib : JsonLib} {es : List Event} {p : Service} {o : Outcome}
    → History lib es p o
    → Remembers p.view o.1.view
History-Remembers (quiet p) = Remembers-refl p.view
History-Remembers {lib} (next {e} {es} {p} {q} {r} xs ys serves rest) =
    Remembers-trans (Serves-Remembers lib e p (xs, q) serves) (History-Remembers rest)

handle_all-Remembers :
    (lib : JsonLib) (es : List Event) (s : State) (p : Service)
    → AreServed lib es s
    → Shown s p
    → (q : Service) × Shown (handle_all lib s es) q × Remembers p.view q.view
handle_all-Remembers lib es s p served h =
    let (o, history, meets) = handle_all-History lib es s p served h in
    (o.1, meets.shown, History-Remembers history)

checks-Remembers :
    (sha256 : Bytes → Bytes) (id password name : Bytes) (v w : View) (o : Option Account)
    → Remembers v w
    → v.account id ≡ o
    → checks sha256 password o ≡ some name
    → checks sha256 password (w.account id) ≡ some name
checks-Remembers sha256 id password name v w none r e c = cc
checks-Remembers sha256 id password name v w (some a) r e c =
    ap (checks sha256 password) (r.accounts id a e) ∙ c

-- A password that authenticates a user does so after any history of messages and disconnections,
-- with the same name, and the table of messages has only grown at its end. The state shows a state
-- of the service, SQLite works and reads all rows, also at the two authentications, the random
-- draws are in their bounds, a loop over the session map visits each entry once, and each pull can
-- read its rows.
pub handle_all-authenticates :
    (lib : JsonLib) (es : List Event) (s : State) (p : Service) (e : Engine)
    (sha256 : Bytes → Bytes) (id password name : Bytes)
    → Works e
    → ReadsAll e
    → AreServed lib es s
    → Shown s p
    → (authenticate_user e sha256 id password s.db).1 ≡ ok (some name)
    → ((authenticate_user e sha256 id password (handle_all lib s es).db).1 ≡ ok (some name))
      × (more : List StoredMessage) × ((handle_all lib s es).db.tables.messages
          ≡ s.db.tables.messages ++ more)
handle_all-authenticates lib es s p e sha256 id password name w reads served h before =
    let (q, shown, r) = handle_all-Remembers lib es s p served h in
    let earlier = authenticate_user-checks w reads s.db p.view h.represents sha256 id password in
    let now =
      authenticate_user-checks w reads (handle_all lib s es).db q.view shown.represents sha256 id
        password in
    (
      ap (λ x. x.1) now
          ∙ ap ok (
              checks-Remembers sha256 (c_str id) password name p.view q.view
                (p.view.account (c_str id)) r refl (ground (arith, ap (λ x. x.1) earlier, before))),
      r.talk.0,
      shown.represents.shows.talk_all
          ∙ r.talk.1
          ∙ ap (λ l. l ++ r.talk.0) (sym h.represents.shows.talk_all),
    )
