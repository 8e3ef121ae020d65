-- ===== src/Database/Contract/Refinement.antt =====
-- The calls of `Database` refine the contract.
use tiny_im.Prelude.{
  ℕ, some, ◌≡◌, refl, ap, sym, subst, List, [], ◌∷◌, Bytes, c_str, same, select, if◌then◌else◌,
}
use mathlib.Core.List.{Perm}
use tiny_im.Database.Schema.{StoredMessage, select_friend_names, select_friend_ids, select_offline}
use tiny_im.Database.Engine.{Engine, Works, ReadsAll}
use tiny_im.Database.Pool.{Db, Result, ok}
use tiny_im.Database.Pool.Frame.{rotate, left}
use tiny_im.Database.Users.{authenticate_user, get_user_name_by_id}
use tiny_im.Database.Friends.{get_friend_list_username, get_friend_list}
use tiny_im.Database.Messages.{get_offline_messages, get_recent_messages, read_messages}
use tiny_im.Message.{Message}
use tiny_im.Database.Calls.{
  Call, registers, renames, authenticates, adds, acks, removes, keeps, names_user, lists_names,
  lists_ids, gets_kept, marks, stores, pulls, after, after_all,
}
use tiny_im.Database.Contract.{
  is_accepted, View, does, does_all, Represents, IsSteady, AreSteady, IsLegible, recent, checks,
  name_of,
}
use tiny_im.Database.Contract.Pulls.{get_recent_messages-recent}
use tiny_im.Database.Contract.Writes.{
  query-Represents, store_message-Represents, add_friend-Represents, ack_add_friend-Represents,
  remove_friend-Represents, store_offline_message-Represents, mark_messages_as_read-Represents,
}
use tiny_im.Database.Contract.Users.{register_user-Represents, set_username-Represents}
use tiny_im.Database.Contract.Reads.{
  authenticate_user-checks, get_user_name_by_id-name_of, get_offline_messages-kept_of,
  get_friend_list-is_accepted, read-Represents,
}

module _ {e : Engine} (w : Works e) (reads : ReadsAll e) (sha256 : Bytes → Bytes) where
  -- A read that answers leaves the view.
  answered :
      {A : Type 0} (db : Db) (v : View) (q : Db × Result A) (a : A)
      → Represents db v
      → q ≡ (left db.tables (rotate db.pool), ok a)
      → Represents q.0 v
  answered db v q a r h = subst (λ x. Represents x.0 v) (sym h) (read-Represents w reads db v r)

  after-Represents :
      (db : Db) (v : View) (c : Call)
      → IsSteady v c
      → Represents db v
      → Represents (after e sha256 db c) (does sha256 v c)
  unfolding after
  after-Represents db v (registers r password name) b rep =
      register_user-Represents w sha256 r password name db v b rep
  after-Represents db v (renames id name) s rep = set_username-Represents w sha256 id name db v rep
  after-Represents db v (adds a b) s rep = add_friend-Represents w sha256 a b db v rep
  after-Represents db v (acks a b) s rep = ack_add_friend-Represents w sha256 a b db v rep
  after-Represents db v (removes a b) s rep = remove_friend-Represents w sha256 a b db v rep
  after-Represents db v (keeps id content) s rep =
      store_offline_message-Represents w sha256 id content db v rep
  after-Represents db v (marks id) s rep = mark_messages_as_read-Represents w sha256 id db v rep
  after-Represents db v (stores now from to type content) s rep =
      store_message-Represents w sha256 now from to type content db v rep
  after-Represents db v (authenticates id password) s rep =
      unfold does in
      answered db v _ _ rep (authenticate_user-checks w reads db v rep sha256 id password)
  after-Represents db v (names_user id) s rep =
      unfold does in answered db v _ _ rep (get_user_name_by_id-name_of w reads db v rep id)
  after-Represents db v (lists_names id) s rep =
      unfold does get_friend_list_username in
      query-Represents w select_friend_names [] _ db db.tables _ v rep.healthy refl rep.shows
  after-Represents db v (lists_ids id) s rep =
      unfold does get_friend_list in
      query-Represents w select_friend_ids [] _ db db.tables _ v rep.healthy refl rep.shows
  after-Represents db v (gets_kept id) s rep =
      unfold does get_offline_messages in
      query-Represents w select_offline [] _ db db.tables _ v rep.healthy refl rep.shows
  after-Represents db v (pulls now id days) s rep =
      unfold does in
      let (rows, ms, perm, read, eq) = get_recent_messages-recent w reads db v rep now days id s in
      answered db v _ _ rep eq

  -- Tables that show a view of the accounts, the status of each ordered pair, the kept messages
  -- and the conversation show, after any history of calls, the view that the contract makes of
  -- this history, and the pool stays healthy. In the view a registration adds an account if its id
  -- is free, a request and an acceptance set both directions of a pair and a rejection clears one;
  -- a read leaves it. The engine works and reads all rows, the random draws are in their bounds,
  -- each pull can read its rows, and the pool was healthy.
  pub after_all-Represents :
      (db : Db) (v : View) (cs : List Call)
      → AreSteady sha256 v cs
      → Represents db v
      → Represents (after_all e sha256 db cs) (does_all sha256 v cs)
  unfolding after_all does_all
  after_all-Represents db v [] s rep = rep
  after_all-Represents db v (c ∷ cs) s rep =
      after_all-Represents (after e sha256 db c) (does sha256 v c) cs s.1
        (after-Represents db v c s.0 rep)

  -- After any history of calls, the view that the contract makes of it says what the reads return:
  -- whose name a password gets, the name of an id, the kept messages in some order, the list of
  -- friends, which has each id once if its status is accepted and not otherwise, and the rows of a
  -- pull, in some order: those from or to the user that are no older than the days asked for, and
  -- none if so many days ago is a time before those that SQLite knows. The engine works and reads
  -- all rows, the random draws are in their bounds, each pull can read its rows, and the tables
  -- showed the view and the pool was healthy before.
  pub after_all-answers :
      (db : Db) (v : View) (cs : List Call) (id password : Bytes) (now days : ℕ)
      → AreSteady sha256 v cs
      → Represents db v
      → IsLegible now days id (does_all sha256 v cs)
      → let db' = after_all e sha256 db cs in
        let v' = does_all sha256 v cs in
        ((authenticate_user e sha256 id password db').1
          ≡ ok (checks sha256 password (v'.account (c_str id))))
        × ((get_user_name_by_id e id db').1 ≡ ok (name_of (v'.account (c_str id))))
        × ((l : List Bytes) × ((get_offline_messages e id db').1 ≡ ok l)
            × Perm l (v'.kept_of (c_str id)))
        × ((l : List Bytes) × ((get_friend_list e id db').1 ≡ ok l)
            × ((x : Bytes)
                → select (same x) l
                  ≡ (if is_accepted (v'.status (c_str id) x) then x ∷ [] else [])))
        × ((rows : List StoredMessage) × (ms : List Message) × Perm rows (recent now days id v')
            × (read_messages now rows ≡ some ms)
            × ((get_recent_messages e now id days db').1 ≡ ok ms))
  after_all-answers db v cs id password now days s rep legible =
      let db' = after_all e sha256 db cs in
      let v' = does_all sha256 v cs in
      let rep' = after_all-Represents db v cs s rep in
      let kept = get_offline_messages-kept_of w reads db' v' rep' id in
      let listed = get_friend_list-is_accepted w reads db' v' rep' id in
      let (rows, ms, perm, read, eq) =
        get_recent_messages-recent w reads db' v' rep' now days id legible in
      (
        ap (λ q. q.1) (authenticate_user-checks w reads db' v' rep' sha256 id password),
        ap (λ q. q.1) (get_user_name_by_id-name_of w reads db' v' rep' id),
        (kept.0, ap (λ q. q.1) kept.1, kept.2),
        (listed.0, ap (λ q. q.1) listed.1, listed.2),
        (rows, ms, perm, read, ap (λ q. q.1) eq),
      )
