-- ===== src/Database/Friends.antt =====
-- `addFriend`, `ackAddFriend`, `removeFriend`, the two friend lists and their pairing.
pub mod Rows
pub mod Calls
pub mod Symmetry
pub mod Listing
use tiny_im.Prelude.{
  ℕ, zero, suc, ◌≡◌, Bool, true, false, not, ◌&&◌, ◌||◌, List, [], ◌∷◌, ◌++◌, map, Option, none,
  some, if◌then◌else◌, ◌==◌, Bytes, same, c_str, exists, select, length,
}
use tiny_im.Database.Schema.{
  Tables, User, Friend, insert_friend, update_friend, delete_friend, select_friend_names,
  select_friend_ids,
}
use tiny_im.Database.Engine.{Engine}
use tiny_im.Database.Pool.{
  Connection, Db, Result, ok, threw, blocked, query, get_connection, prepare, release,
}

abbrev pub is_pair : Bytes → Bytes → Friend → Bool
is_pair a b f = same f.user_id a && same f.friend_id b

-- INSERT OR IGNORE: a row that the primary key refuses is skipped, and the statement is done.
unfoldable pub insert_or_ignore : Bytes → Bytes → List Friend → List Friend
insert_or_ignore a b fs =
    if exists (is_pair a b) fs
    then fs
    else fs ++ record { user_id = a; friend_id = b; status = 0 } ∷ []

insert_pair : Engine → Bytes → Bytes → Tables → Tables × Bool
unfolding insert_or_ignore
insert_pair e a b t =
    if e.writes t insert_friend
    then (record t { friends = insert_or_ignore a b t.friends }, true)
    else (t, false)

-- The second statement, on the connection and tables that the first one leaves.
add_reverse : Engine → Bytes → Bytes → Connection → Db → Tables × Bool → Db × Result Bool
unfolding prepare release
add_reverse e a b c db (t, result1) =
    if prepare e c insert_friend t
    then (let (t', result2) = insert_pair e b a t in
        (release c (record db { tables = t' }), ok (result1 && result2)))
    else (record db { tables = t }, ok false)

add_on : Engine → Bytes → Bytes → Connection → Db → Db × Result Bool
unfolding add_reverse insert_pair
add_on e a b c db =
    if prepare e c insert_friend db.tables
    then add_reverse e a b c db (insert_pair e a b db.tables)
    else (db, ok false)

unfoldable pub add_friend : Engine → Bytes → Bytes → Db → Db × Result Bool
unfolding get_connection add_on
add_friend e user_id friend_id db = elim (get_connection db) [
  | none ↦ (db, blocked)
  | some (c, db') ↦ add_on e (c_str user_id) (c_str friend_id) c db'
]

-- WHERE (user_id = ?1 AND friend_id = ?2) OR (friend_id = ?3 AND user_id = ?4), where ?3 is bound to
-- the user and ?4 to the friend: the pair and its reverse.
unfoldable pub accept : Bytes → Bytes → Friend → Friend
accept a b f = if is_pair a b f || is_pair b a f then record f { status = 1 } else f

unfoldable pub accept_pair : Bytes → Bytes → List Friend → List Friend
unfolding accept
accept_pair a b = map (accept a b)

unfoldable pub ack_add_friend : Engine → Bytes → Bytes → Db → Db × Result Bool
unfolding accept_pair
ack_add_friend e user_id friend_id db =
    query e update_friend false
      (λ t.
        if e.writes t update_friend
        then (
          record t { friends = accept_pair (c_str user_id) (c_str friend_id) t.friends },
          some true,
        )
        else (t, some false))
      db

unfoldable pub delete_pair : Bytes → Bytes → List Friend → List Friend
delete_pair a b = select (λ f. not (is_pair a b f))

unfoldable pub remove_friend : Engine → Bytes → Bytes → Db → Db × Result Bool
unfolding delete_pair
remove_friend e user_id friend_id db =
    query e delete_friend false
      (λ t.
        if e.writes t delete_friend
        then (
          record t { friends = delete_pair (c_str user_id) (c_str friend_id) t.friends },
          some true,
        )
        else (t, some false))
      db

-- WHERE user_id = ? AND status = 1.
abbrev pub accepted : Bytes → Friend → Bool
accepted id f = same f.user_id id && f.status == 1

-- JOIN users u ON f.friend_id = u.user_id.
matches : Friend → List User → List (Friend × User)
matches f [] = []
matches f (u ∷ us) = if same f.friend_id u.user_id then (f, u) ∷ matches f us else matches f us

unfoldable pub join : List Friend → List User → List (Friend × User)
unfolding matches
join [] us = []
join (f ∷ fs) us = matches f us ++ join fs us

-- A NULL username is skipped.
usernames : List (Friend × User) → List Bytes
usernames [] = []
usernames ((f, u) ∷ r) = elim u.username [ none ↦ usernames r | some name ↦ name ∷ usernames r ]

unfoldable pub get_friend_list_username : Engine → Bytes → Db → Db × Result (List Bytes)
unfolding usernames join
get_friend_list_username e user_id db =
    query e select_friend_names []
      (λ t. (
        t,
        some (usernames (e.scan_join (join (select (accepted (c_str user_id)) t.friends) t.users))),
      ))
      db

unfoldable pub get_friend_list : Engine → Bytes → Db → Db × Result (List Bytes)
get_friend_list e user_id db =
    query e select_friend_ids []
      (λ t. (
        t,
        some
            (map (λ f. f.friend_id) (e.scan_friends (select (accepted (c_str user_id)) t.friends))),
      ))
      db

-- The loop over the indices of two vectors of one length.
zip_pairs : List Bytes → List Bytes → List (Bytes × Bytes)
zip_pairs [] names = []
zip_pairs (i ∷ ids) [] = []
zip_pairs (i ∷ ids) (n ∷ names) = (i, n) ∷ zip_pairs ids names

unfoldable pub pair_up : List Bytes → List Bytes → List (Bytes × Bytes)
unfolding zip_pairs
pair_up ids names = if length ids == length names then zip_pairs ids names else []

pair_results : Result (List Bytes) → Result (List Bytes) → Result (List (Bytes × Bytes))
unfolding pair_up
pair_results (ok ids) (ok names) = ok (pair_up ids names)
pair_results (ok ids) threw = threw
pair_results (ok ids) blocked = blocked
pair_results threw r = threw
pair_results blocked r = blocked

-- A first query that does not return keeps the second from being made.
then_names : Engine → Bytes → Db × Result (List Bytes) → Db × Result (List (Bytes × Bytes))
unfolding pair_results
then_names e user_id (db, ok ids) =
    let (db', names) = get_friend_list_username e user_id db in (db', pair_results (ok ids) names)
then_names e user_id (db, threw) = (db, threw)
then_names e user_id (db, blocked) = (db, blocked)

unfoldable pub get_friend_pair : Engine → Bytes → Db → Db × Result (List (Bytes × Bytes))
unfolding then_names
get_friend_pair e user_id db = then_names e user_id (get_friend_list e user_id db)
