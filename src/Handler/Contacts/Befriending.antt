-- ===== src/Handler/Contacts/Befriending.antt =====
-- Friend requests and their answers, as rows of the friends table.
use tiny_im.Prelude.{
  ℕ, ◌≡◌, ◌≢◌, refl, ap, sym, ◌∙◌, true, false, List, [], ◌∷◌, ◌++◌, Option, none, some, arith,
  same, same_iff, same_refl, codes, Bytes, append-nil,
}
use tiny_im.Prelude.Int.{pos, next_int, same_int, same_int_iff, IsInt}
use tiny_im.Decimal.{to_string}
use tiny_im.Decimal.RoundTrip.{c_str-to_string, to_string-injective}
use tiny_im.Message.{Message, new}
use tiny_im.Message.Types.{friend_request}
use tiny_im.Database.Schema.{Friend}
use tiny_im.Database.Engine.{Works}
use tiny_im.Database.Pool.{Db, ok}
use tiny_im.Database.Pool.Frame.{IsHealthy, left, rotate}
use tiny_im.Database.Users.{get_user_name_by_id}
use tiny_im.Database.Friends.Rows.{status_of, status_of-accept_pair, status_of-delete_pair}
use tiny_im.Database.Friends.{accept_pair, delete_pair}
use tiny_im.Database.Friends.Calls.{
  with_friends, both_ways, add_friend-healthy, ack_add_friend-healthy, remove_friend-healthy,
}
use tiny_im.Handler.State.{SessionId, Effect, sends, State, Env, find, pure, emit}
use tiny_im.Handler.Runs.{run-ask, run-lookup}
use tiny_im.Handler.Contacts.{notify, notify_named, requested, request, add_friend, ack_add_friend}

-- The state with another friends table, after one query.
abbrev pub with_rows : State → List Friend → State
with_rows s fs = record s { db = left (with_friends s.db.tables fs) (rotate s.db.pool) }

-- The request that the friend's session is sent, if the user has a name and the friend a session.
abbrev pub notice : Env → Message → Option Bytes → Option SessionId → List Effect
notice env msg none there = []
notice env msg (some name) none = []
notice env msg (some name) (some session) =
    sends session
      (new (pos env.now) msg.from_user_id msg.to_user_id friend_request (next_int env.garbage) name)
    ∷ []

abbrev pub same_sessions : State → Db → List Effect → State
same_sessions s db xs = record s { db = db; effects = s.effects ++ xs }

notify_named-eq :
    (env : Env) (msg : Message) (s : State) (db : Db) (name : Option Bytes)
    (there : Option SessionId)
    → find msg.to_user_id s.sessions ≡ there
    → notify_named env msg.from_user_id msg.to_user_id name (record s { db = db })
      ≡ (same_sessions s db (notice env msg name there), ok tt)
unfolding notify_named notify pure emit
notify_named-eq env msg s db none there e =
    ap (λ xs. (record s { db = db; effects = xs }, ok tt)) (sym (append-nil s.effects))
notify_named-eq env msg s db (some name) none e =
    run-lookup msg.to_user_id _ _ none e
    ∙ ap (λ xs. (record s { db = db; effects = xs }, ok tt)) (sym (append-nil s.effects))
notify_named-eq env msg s db (some name) (some session) e =
    run-lookup msg.to_user_id _ _ (some session) e

module _ (env : Env) (msg : Message) (s : State) where
  -- A request to oneself changes nothing and tells nobody.
  pub add_friend_self : msg.from_user_id ≡ msg.to_user_id → add_friend env msg s ≡ (s, ok tt)
  unfolding add_friend request pure
  add_friend_self e = rw ((same_int_iff msg.from_user_id msg.to_user_id).1 e, request) refl

  request-eq :
      (db : Db) (name : Option Bytes)
      → Works env.engine
      → IsHealthy s.db
      → get_user_name_by_id env.engine
          (to_string msg.from_user_id)
          (with_rows s (
            both_ways
              (to_string msg.from_user_id)
              (to_string msg.to_user_id)
              s.db.tables.friends)).db
        ≡ (db, ok name)
      → request env msg.from_user_id msg.to_user_id false s
        ≡ (same_sessions s db (notice env msg name (find msg.to_user_id s.sessions)), ok tt)
  unfolding request requested
  request-eq db name w h named =
      run-ask _ _ s _ true (
        add_friend-healthy w s.db (to_string msg.from_user_id) (to_string msg.to_user_id) h
        ∙ rw (c_str-to_string msg.from_user_id, c_str-to_string msg.to_user_id) refl)
      ∙ run-ask _ _ _ db name named
      ∙ notify_named-eq env msg s db name (find msg.to_user_id s.sessions) refl

  -- A friend request to somebody else leaves a row in each direction before the name of the sender
  -- is looked up; the receiver's session, if there is one, is sent the request under this name,
  -- and the session map stays as it is. The engine works, the pool is healthy and the lookup of
  -- the name returns.
  pub add_friend-requests :
      (db : Db) (name : Option Bytes)
      → Works env.engine
      → IsHealthy s.db
      → msg.from_user_id ≢ msg.to_user_id
      → get_user_name_by_id env.engine
          (to_string msg.from_user_id)
          (with_rows s (
            both_ways
              (to_string msg.from_user_id)
              (to_string msg.to_user_id)
              s.db.tables.friends)).db
        ≡ (db, ok name)
      → add_friend env msg s
        ≡ (same_sessions s db (notice env msg name (find msg.to_user_id s.sessions)), ok tt)
  unfolding add_friend
  add_friend-requests db name w h n named =
      let other : same_int msg.from_user_id msg.to_user_id ≡ false =
        ground (arith, same_int_iff msg.from_user_id msg.to_user_id, n) in
      ap (λ b. request env msg.from_user_id msg.to_user_id b s) other ∙ request-eq db name w h named

  ack_add_friend-accepts :
      Works env.engine
      → IsHealthy s.db
      → msg.content ≡ codes "accept"
      → ack_add_friend env msg s ≡ (
        with_rows s (
            accept_pair
              (to_string msg.to_user_id)
              (to_string msg.from_user_id)
              s.db.tables.friends),
        ok tt,
      )
  unfolding ack_add_friend same pure
  ack_add_friend-accepts w h e = rw e (
      run-ask _ _ s _ true (
        ack_add_friend-healthy w s.db (to_string msg.to_user_id) (to_string msg.from_user_id) h
        ∙ rw (c_str-to_string msg.from_user_id, c_str-to_string msg.to_user_id) refl))

  ack_add_friend-rejects :
      Works env.engine
      → IsHealthy s.db
      → msg.content ≡ codes "reject"
      → ack_add_friend env msg s ≡ (
        with_rows s (
            delete_pair
              (to_string msg.to_user_id)
              (to_string msg.from_user_id)
              s.db.tables.friends),
        ok tt,
      )
  unfolding ack_add_friend same pure
  ack_add_friend-rejects w h e = rw e (
      run-ask _ _ s _ true (
        remove_friend-healthy w s.db (to_string msg.to_user_id) (to_string msg.from_user_id) h
        ∙ rw (c_str-to_string msg.from_user_id, c_str-to_string msg.to_user_id) refl))

  -- An acceptance is not held to come from the user who was asked: if there is a row in each
  -- direction between its sender and its receiver, both have status 1 afterwards, whoever of the
  -- two had asked. The engine works and the pool is healthy.
  pub ack_add_friend-either :
      (m n : ℕ)
      → Works env.engine
      → IsHealthy s.db
      → msg.content ≡ codes "accept"
      → status_of (to_string msg.from_user_id) (to_string msg.to_user_id) s.db.tables.friends
        ≡ some m
      → status_of (to_string msg.to_user_id) (to_string msg.from_user_id) s.db.tables.friends
        ≡ some n
      → let fs = (ack_add_friend env msg s).0.db.tables.friends in
        (status_of (to_string msg.from_user_id) (to_string msg.to_user_id) fs ≡ some 1)
        × (status_of (to_string msg.to_user_id) (to_string msg.from_user_id) fs ≡ some 1)
  ack_add_friend-either m n w h e p q =
      let a = to_string msg.from_user_id in
      let b = to_string msg.to_user_id in
      let fs = s.db.tables.friends in
      rw (ack_add_friend-accepts w h e) (
        status_of-accept_pair b a a b fs ∙ ground (arith, p, same_refl a, same_refl b),
        status_of-accept_pair b a b a fs ∙ ground (arith, q, same_refl a, same_refl b),
      )

  -- A rejection between two different ints deletes the row of the one who asked, and leaves the
  -- row of the sender as it was. The engine works and the pool is healthy.
  pub ack_add_friend-reject_leaves :
      Works env.engine
      → IsHealthy s.db
      → msg.content ≡ codes "reject"
      → IsInt msg.from_user_id
      → IsInt msg.to_user_id
      → msg.from_user_id ≢ msg.to_user_id
      → let fs = (ack_add_friend env msg s).0.db.tables.friends in
        (status_of (to_string msg.to_user_id) (to_string msg.from_user_id) fs ≡ none)
        × (status_of (to_string msg.from_user_id) (to_string msg.to_user_id) fs
            ≡ status_of (to_string msg.from_user_id) (to_string msg.to_user_id) s.db.tables.friends)
  ack_add_friend-reject_leaves w h e i j n =
      let a = to_string msg.from_user_id in
      let b = to_string msg.to_user_id in
      let fs = s.db.tables.friends in
      let differ : a ≢ b = λ p. n (to_string-injective msg.from_user_id msg.to_user_id p i j) in
      rw (ack_add_friend-rejects w h e) (
        status_of-delete_pair b a b a fs ∙ ground (arith, same_refl a, same_refl b),
        status_of-delete_pair b a a b fs ∙ ground (arith, same_iff b a, differ),
      )
