-- ===== src/Service/Friendship.antt =====
-- How two users become friends.
use tiny_im.Prelude.{
  ℕ, ◌≡◌, refl, sym, ap, subst, ◌∙◌, ◌⊎◌, inl, inr, Bool, true, false, ◌||◌, List, [], ◌∷◌, Option,
  none, some, arith, Bytes, same, same_iff, codes, if◌then◌else◌, select, Bool-cases,
}
use tiny_im.Prelude.Int.{same_int}
use tiny_im.Decimal.RoundTrip.{c_str-to_string}
use tiny_im.Message.{Message}
use tiny_im.Message.Types.{
  MessageType, sign_up, sign_up_response, login, login_response, logout, text, add_friend,
  friend_request, friend_request_response, friend_list, private_chat, group_chat, pull_message,
}
use tiny_im.Message.Json.{JsonLib}
use tiny_im.Database.Schema.{Friend}
use tiny_im.Database.Friends.{is_pair}
use tiny_im.Database.Friends.Rows.{status_of, same_pair, set_to}
use tiny_im.Database.Contract.{Account, View, does, enroll, rows_of_pair, Tells}
use tiny_im.Handler.State.{SessionId, State, Env}
use tiny_im.Handler.Dispatch.Keeps.{Event, arrives, disconnects, handle_all}
use tiny_im.Service.{
  Service, Outcome, sender, receiver, wanted, signs_up, logs_in, befriends, answers_request,
  Answers, Serves, History, quiet, next,
}
use tiny_im.Service.Shown.{Shown}
use tiny_im.Service.Refinement.{AreServed, handle_all-History}

-- The message is an acceptance between the two, whoever of them sent it.
abbrev pub Accepts : Message → Bytes → Bytes → Type 0
Accepts msg a b =
    (msg.message_type ≡ friend_request_response)
    × (msg.content ≡ codes "accept")
    × (((sender msg ≡ a) × (receiver msg ≡ b)) ⊎ ((sender msg ≡ b) × (receiver msg ≡ a)))

abbrev pub IsAcceptance : Event → Bytes → Bytes → Type 0
IsAcceptance (arrives env session msg) a b = Accepts msg a b
IsAcceptance (disconnects session) a b = true ≡ false

-- One of the events is such an acceptance.
abbrev pub Accepted : List Event → Bytes → Bytes → Type 0
Accepted [] a b = true ≡ false
Accepted (e ∷ es) a b = IsAcceptance e a b ⊎ Accepted es a b

abbrev Before : View → Bytes → Bytes → Type 0
Before v a b = v.status a b ≡ some 1

pair_eq : (c d a b : Bytes) → same_pair c d a b ≡ true → (c ≡ a) × (d ≡ b)
pair_eq c d a b h = ground (arith, same_iff c a, same_iff d b)

enroll-status :
    (id : Bytes) (x : Account) (o : Option Account) (v : View) → (enroll id x o v).status ≡ v.status
enroll-status id x none v = refl
enroll-status id x (some y) v = refl

module _ (lib : JsonLib) (env : Env) (msg : Message) (session : SessionId) (p : Service)
    (a b : Bytes) where
  signs_up-status :
      (o : Option (Bytes × Bytes))
      → (signs_up lib env msg session p o).1.view.status ≡ p.view.status
  unfolding does
  signs_up-status none = refl
  signs_up-status (some (password, username)) = enroll-status _ _ _ p.view

  logs_in-status :
      (o : Option Bytes) (there : Option SessionId)
      → (logs_in lib env msg session p o there).1.view.status ≡ p.view.status
  logs_in-status none there = refl
  logs_in-status (some name) none = refl
  logs_in-status (some name) (some other) = refl

  befriends-Before :
      (t : Bool) → Before (befriends lib env msg session p t).1.view a b → Before p.view a b
  unfolding does
  befriends-Before true h = h
  befriends-Before false h = ground (arith, h)

  -- A status that an acceptance leaves at 1 was 1, or is that of one of its two directions.
  accepts :
      msg.message_type ≡ friend_request_response
      → msg.content ≡ codes "accept"
      → (if same_pair (receiver msg) (sender msg) a b || same_pair (sender msg) (receiver msg) a b
          then set_to 1 (p.view.status a b)
          else p.view.status a b)
        ≡ some 1
      → Before p.view a b ⊎ Accepts msg a b
  accepts t c h = elim (Bool-cases (same_pair (receiver msg) (sender msg) a b)) [
    | inl y ↦ let (r, s) = pair_eq (receiver msg) (sender msg) a b y in inr (t, c, inr (s, r))
    | inr n ↦ elim (Bool-cases (same_pair (sender msg) (receiver msg) a b)) [
      | inl y ↦ inr (t, c, inl (pair_eq (sender msg) (receiver msg) a b y))
      | inr m ↦ inl (ground (arith, h, n, m))
    ]
  ]

  answers_request-Accepts :
      msg.message_type ≡ friend_request_response
      → Before (answers_request lib env msg session p).1.view a b
      → Before p.view a b ⊎ Accepts msg a b
  unfolding does
  answers_request-Accepts t = elim (Bool-cases (same msg.content (codes "reject"))) [
    | inl y ↦ rw y (λ h. inl (ground (arith, h)))
    | inr n ↦ elim (Bool-cases (same msg.content (codes "accept"))) [
      | inl y ↦
          rw (n, y, c_str-to_string msg.from_user_id, c_str-to_string msg.to_user_id)
            (λ h. accepts t ((same_iff msg.content (codes "accept")).0 y) h)
      | inr m ↦ rw (n, m) (λ h. inl h)
    ]
  ]

  -- The status is as before where the outcome has it so.
  unmoved :
      (o r : Outcome)
      → o ≡ r
      → r.1.view.status ≡ p.view.status
      → Before o.1.view a b
      → Before p.view a b
  unmoved o r e same_status h =
      ap (λ f. f a b) (sym same_status) ∙ ap (λ x. x.1.view.status a b) (sym e) ∙ h

  Answers-Accepts :
      (t : MessageType) (o : Outcome)
      → msg.message_type ≡ t
      → Answers lib env msg session t p o
      → Before o.1.view a b
      → Before p.view a b ⊎ Accepts msg a b
  unfolding does
  Answers-Accepts sign_up o m e h =
      inl (unmoved o _ e (signs_up-status (wanted lib env msg session)) h)
  Answers-Accepts login o m e h = inl (unmoved o _ e (logs_in-status _ _) h)
  Answers-Accepts logout o m e h = inl (unmoved o _ e refl h)
  Answers-Accepts text o m e h = inl (unmoved o _ e refl h)
  Answers-Accepts private_chat o m e h = inl (unmoved o _ e refl h)
  Answers-Accepts add_friend o m e h = inl (
      befriends-Before (same_int msg.from_user_id msg.to_user_id)
        (subst (λ x. Before x.1.view a b) e h))
  Answers-Accepts friend_request_response o m e h =
      answers_request-Accepts m (subst (λ x. Before x.1.view a b) e h)
  Answers-Accepts friend_list o m (ids, pairs, exact, up, e) h = inl (unmoved o _ e refl h)
  Answers-Accepts group_chat o m (perm, e) h = inl (subst (λ q. Before q.view a b) e h)
  Answers-Accepts pull_message o m (rows, ms, perm, read, e) h = inl (unmoved o _ e refl h)
  Answers-Accepts sign_up_response o m e h = inl (unmoved o _ e refl h)
  Answers-Accepts login_response o m e h = inl (unmoved o _ e refl h)
  Answers-Accepts friend_request o m e h = inl (unmoved o _ e refl h)

Serves-IsAcceptance :
    (lib : JsonLib) (e : Event) (p : Service) (o : Outcome) (a b : Bytes)
    → Serves lib e p o
    → Before o.1.view a b
    → Before p.view a b ⊎ IsAcceptance e a b
Serves-IsAcceptance lib (arrives env session msg) p o a b s h =
    Answers-Accepts lib env msg session p a b msg.message_type o refl s h
Serves-IsAcceptance lib (disconnects session) p o a b e h =
    inl (subst (λ x. Before x.1.view a b) e h)

History-Accepted :
    {lib : JsonLib} {es : List Event} {p : Service} {o : Outcome} (a b : Bytes)
    → History lib es p o
    → Before o.1.view a b
    → Before p.view a b ⊎ Accepted es a b
History-Accepted a b (quiet p) h = inl h
History-Accepted {lib} a b (next {e} {es} {p} {q} {r} xs ys serves rest) h =
    elim (History-Accepted a b rest h) [
      | inl before ↦ elim (Serves-IsAcceptance lib e p (xs, q) a b serves before) [
        | inl earlier ↦ inl earlier
        | inr now ↦ inr (inl now)
      ]
      | inr later ↦ inr (inr later)
    ]

-- The status in the first row.
abbrev first_status : List Friend → Option ℕ
first_status [] = none
first_status (f ∷ fs) = some f.status

status_of-select :
    (a b : Bytes) (fs : List Friend) → status_of a b fs ≡ first_status (select (is_pair a b) fs)
unfolding status_of
status_of-select a b [] = refl
status_of-select a b (f ∷ fs) = ground (arith, status_of-select a b fs)

first_status-rows_of_pair : (a b : Bytes) (o : Option ℕ) → first_status (rows_of_pair a b o) ≡ o
first_status-rows_of_pair a b none = refl
first_status-rows_of_pair a b (some n) = refl

told_status :
    (a b : Bytes) (fs : List Friend) (status : Bytes → Bytes → Option ℕ)
    → Tells fs status
    → status_of a b fs ≡ status a b
told_status a b fs status h =
    status_of-select a b fs ∙ ap first_status (h a b) ∙ first_status-rows_of_pair a b (status a b)

-- If after a history of messages and disconnections a row says that two users are friends, it said
-- so before, or one of the messages was an acceptance between the two, from one of them to the
-- other. The state shows a state of the service, SQLite works and reads all rows, the random draws
-- are in their bounds, a loop over the session map visits each entry once, and each pull can read
-- its rows.
pub handle_all-Accepted :
    (lib : JsonLib) (es : List Event) (s : State) (p : Service) (a b : Bytes)
    → AreServed lib es s
    → Shown s p
    → status_of a b (handle_all lib s es).db.tables.friends ≡ some 1
    → (status_of a b s.db.tables.friends ≡ some 1) ⊎ Accepted es a b
handle_all-Accepted lib es s p a b served h friends =
    let (o, history, meets) = handle_all-History lib es s p served h in
    let now =
      sym (told_status a b _ o.1.view.status meets.shown.represents.shows.pairs) ∙ friends in
    elim (History-Accepted a b history now) [
      | inl before ↦ inl (told_status a b _ p.view.status h.represents.shows.pairs ∙ before)
      | inr accepted ↦ inr accepted
    ]
