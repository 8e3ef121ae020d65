-- ===== src/Database/Users.antt =====
-- `registerUser`, `setUsername`, `authenticateUser` and `getUserNameById`.
pub mod Accounts
pub mod Ids
use tiny_im.Prelude.{
  ◌≡◌, Bool, true, false, not, ◌&&◌, List, [], ◌∷◌, ◌++◌, map, Option, none, some, if◌then◌else◌,
  Bytes, same, c_str, exists, select,
}
use tiny_im.Database.Schema.{
  Tables, User, insert_user, update_username, select_login, select_username,
}
use tiny_im.Database.Engine.{Engine}
use tiny_im.Database.Pool.{Db, Result, ok, threw, blocked, query}
use tiny_im.Database.Credentials.{Random, generate_uuid, generate_salt, hash_password}

abbrev pub has_id : Bytes → User → Bool
has_id id u = same u.user_id id

-- The row that registration inserts: every text is bound as a C string.
unfoldable pub new_user : (Bytes → Bytes) → Random → Bytes → Bytes → User
new_user sha256 r password username =
    let salt = generate_salt r in
    record {
      user_id = c_str (generate_uuid r);
      username = some (c_str username);
      password_hash = c_str (hash_password sha256 password salt);
      salt = c_str salt;
    }

-- The primary key refuses a second row of one id.
unfoldable pub insert_row : Engine → User → Tables → Tables × Bool
insert_row e u t =
    if e.writes t insert_user && not (exists (has_id u.user_id) t.users)
    then (record t { users = t.users ++ u ∷ [] }, true)
    else (t, false)

unfoldable pub insert_result : Bytes → Tables × Bool → Tables × Option (Option Bytes)
insert_result id (t, true) = (t, some (some id))
insert_result id (t, false) = (t, some none)

unfoldable pub register_user :
    Engine → (Bytes → Bytes) → Random → Bytes → Bytes → Db → Db × Result (Option Bytes)
unfolding insert_row insert_result
register_user e sha256 r password username db =
    query e insert_user none
      (λ t. insert_result (generate_uuid r) (insert_row e (new_user sha256 r password username) t))
      db

unfoldable pub rename : Bytes → Bytes → User → User
rename id name u = if has_id id u then record u { username = some name } else u

unfoldable pub set_username : Engine → Bytes → Bytes → Db → Db × Result Bool
unfolding rename
set_username e user_id username db =
    query e update_username false
      (λ t.
        if e.writes t update_username
        then (record t { users = map (rename (c_str user_id) (c_str username)) t.users }, some true)
        else (t, some false))
      db

-- A NULL username makes the constructor of std::string throw.
read_login : Tables → List User → Tables × Option (Option (Bytes × Bytes × Bytes))
read_login t [] = (t, some none)
read_login t (u ∷ us) = elim u.username [
  | none ↦ (t, none)
  | some name ↦ (t, some (some (name, u.password_hash, u.salt)))
]

check_login :
    (Bytes → Bytes) → Bytes → Result (Option (Bytes × Bytes × Bytes)) → Result (Option Bytes)
check_login sha256 password (ok none) = ok none
check_login sha256 password (ok (some (name, stored_hash, salt))) =
    if same (hash_password sha256 password salt) stored_hash then ok (some name) else ok none
check_login sha256 password threw = threw
check_login sha256 password blocked = blocked

unfoldable pub authenticate_user :
    Engine → (Bytes → Bytes) → Bytes → Bytes → Db → Db × Result (Option Bytes)
unfolding read_login check_login
authenticate_user e sha256 uuid password db =
    let (db', r) =
      query e select_login none
        (λ t. read_login t (e.scan_users (select (has_id (c_str uuid)) t.users))) db in
    (db', check_login sha256 password r)

read_username : Tables → List User → Tables × Option (Option Bytes)
read_username t [] = (t, some none)
read_username t (u ∷ us) = elim u.username [ none ↦ (t, none) | some name ↦ (t, some (some name)) ]

unfoldable pub get_user_name_by_id : Engine → Bytes → Db → Db × Result (Option Bytes)
unfolding read_username
get_user_name_by_id e user_id db =
    query e select_username none
      (λ t. read_username t (e.scan_users (select (has_id (c_str user_id)) t.users))) db
