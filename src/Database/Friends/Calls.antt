-- ===== src/Database/Friends/Calls.antt =====
-- The friend queries on a healthy pool: result, rows and pool in one equation each.
use tiny_im.Prelude.{
  ◌<◌, ◌≡◌, refl, ap, true, false, ◌&&◌, List, [], ◌∷◌, arith, Bytes, c_str, length, Bool-cases,
  ◌⊎◌, inl, inr,
}
use tiny_im.Database.Schema.{Tables, Friend, insert_friend, update_friend, delete_friend}
use tiny_im.Database.Engine.{Engine, Works}
use tiny_im.Database.Pool.{
  Connection, Db, Result, ok, threw, blocked, get_connection, prepare, release,
}
use tiny_im.Database.Pool.Frame.{
  AllOpen, IsHealthy, rotate, left, query-healthy, query-blocked, Kept,
}
use tiny_im.Database.Friends.{
  insert_or_ignore, insert_pair, add_reverse, add_on, add_friend, accept_pair, ack_add_friend,
  delete_pair, remove_friend, get_friend_list, get_friend_list_username, then_names,
  get_friend_pair,
}

-- The tables with another friends table.
abbrev pub with_friends : Tables → List Friend → Tables
with_friends t fs = record t { friends = fs }

abbrev pub both_ways : Bytes → Bytes → List Friend → List Friend
both_ways a b fs = insert_or_ignore b a (insert_or_ignore a b fs)

module _ {e : Engine} (w : Works e) where
  add_friend_pool :
      (t : Tables) (p : List Connection) (a b : Bytes)
      → 0 < length p
      → AllOpen p
      → add_friend e a b (left t p)
        ≡ (left (with_friends t (both_ways (c_str a) (c_str b) t.friends)) (rotate p), ok true)
  unfolding add_friend add_on add_reverse insert_pair get_connection prepare release
  add_friend_pool t [] a b h o = elim h [ ]
  add_friend_pool t (c ∷ rest) a b h o =
      let t1 = with_friends t (insert_or_ignore (c_str a) (c_str b) t.friends) in
      ground (
        arith,
        w.prepares_all t insert_friend,
        w.writes_all t insert_friend,
        w.prepares_all t1 insert_friend,
        w.writes_all t1 insert_friend,
      )

  pub add_friend-healthy :
      (db : Db) (a b : Bytes)
      → IsHealthy db
      → add_friend e a b db ≡ (
        left
            (with_friends db.tables (both_ways (c_str a) (c_str b) db.tables.friends))
            (rotate db.pool),
        ok true,
      )
  add_friend-healthy db a b h = add_friend_pool db.tables db.pool a b h.some_left h.all_open

  pub ack_add_friend-healthy :
      (db : Db) (a b : Bytes)
      → IsHealthy db
      → ack_add_friend e a b db ≡ (
        left
            (with_friends db.tables (accept_pair (c_str a) (c_str b) db.tables.friends))
            (rotate db.pool),
        ok true,
      )
  unfolding ack_add_friend
  ack_add_friend-healthy db a b h =
      query-healthy e _ _ _ w db _ true h (rw (w.writes_all db.tables update_friend))

  pub remove_friend-healthy :
      (db : Db) (a b : Bytes)
      → IsHealthy db
      → remove_friend e a b db ≡ (
        left
            (with_friends db.tables (delete_pair (c_str a) (c_str b) db.tables.friends))
            (rotate db.pool),
        ok true,
      )
  unfolding remove_friend
  remove_friend-healthy db a b h =
      query-healthy e _ _ _ w db _ true h (rw (w.writes_all db.tables delete_friend))

add_friend-Kept_pool :
    (e : Engine) (a b : Bytes) (t : Tables) (p : List Connection)
    → Kept p (add_friend e a b (left t p)).0.pool
unfolding add_friend add_on add_reverse get_connection prepare release
add_friend-Kept_pool e a b t [] = inl refl
add_friend-Kept_pool e a b t (c ∷ rest) =
    elim (Bool-cases (c.opened && e.prepares t insert_friend)) [
      | inl y ↦
          rw y
            (elim (Bool-cases
              (c.opened && e.prepares (insert_pair e (c_str a) (c_str b) t).0 insert_friend)) [
                | inl y2 ↦ rw y2 (inl refl)
                | inr n2 ↦ rw n2 (inr refl)
              ])
      | inr n ↦ rw n (inr refl)
    ]

pub add_friend-Kept :
    (e : Engine) (a b : Bytes) (db : Db) → Kept db.pool (add_friend e a b db).0.pool
add_friend-Kept e a b db = add_friend-Kept_pool e a b db.tables db.pool

pub add_friend-closed :
    (e : Engine) (a b : Bytes) (t : Tables) (c : Connection) (rest : List Connection)
    → c.opened ≡ false
    → add_friend e a b (left t (c ∷ rest)) ≡ (left t rest, ok false)
unfolding add_friend add_on get_connection prepare
add_friend-closed e a b t c rest h = rw h

pub add_friend-blocked :
    (e : Engine) (a b : Bytes) (db : Db) → db.pool ≡ [] → add_friend e a b db ≡ (db, blocked)
unfolding add_friend get_connection
add_friend-blocked e a b db h = rw h refl

then_names-db :
    (e : Engine) (id : Bytes) (db : Db) (r : Result (List Bytes))
    → ((then_names e id (db, r)).0 ≡ db)
      ⊎ ((then_names e id (db, r)).0 ≡ (get_friend_list_username e id db).0)
unfolding then_names
then_names-db e id db (ok ids) = inr refl
then_names-db e id db threw = inl refl
then_names-db e id db blocked = inl refl

-- The list of friends is the query of the ids, and the query of the names unless this one does not
-- return.
pub get_friend_pair-db :
    (e : Engine) (id : Bytes) (db : Db)
    → ((get_friend_pair e id db).0 ≡ (get_friend_list e id db).0)
      ⊎ ((get_friend_pair e id db).0
          ≡ (get_friend_list_username e id (get_friend_list e id db).0).0)
unfolding get_friend_pair
get_friend_pair-db e id db = let r = get_friend_list e id db in then_names-db e id r.0 r.1

pub get_friend_pair-blocked :
    (e : Engine) (id : Bytes) (db : Db) → db.pool ≡ [] → get_friend_pair e id db ≡ (db, blocked)
unfolding get_friend_pair get_friend_list then_names
get_friend_pair-blocked e id db h = ap (then_names e id) (query-blocked e _ _ _ db h)
