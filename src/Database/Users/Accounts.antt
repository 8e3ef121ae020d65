-- ===== src/Database/Users/Accounts.antt =====
-- Accounts: what registration leaves, who can log in, and the ids of the rows.
use mathlib.Core.List.Perm
use tiny_im.Prelude.{
  Option-cases, inl, inr, ◌≡◌, ◌≢◌, refl, ap, ◌∙◌, false, List, [], ◌∷◌, ◌++◌, Option, none, some,
  arith, Bytes, c_str, same, same_iff, if◌then◌else◌, select, select-append, exists,
}
use tiny_im.Prelude.Perms.{perm_one}
use tiny_im.Database.Schema.{Tables, User, insert_user, select_login, select_username}
use tiny_im.Database.Engine.{Engine, Works, ReadsAll}
use tiny_im.Database.Pool.{Connection, Db, Result, ok, blocked}
use tiny_im.Database.Pool.Frame.{
  IsHealthy, rotate, left, query-blocked, query-closed, query-tables, query-healthy,
  IsHealthy-rotate,
}
use tiny_im.Database.Credentials.{Random, InBounds, generate_uuid, generate_salt, hash_password}
use tiny_im.Database.Credentials.Shape.{
  c_str-generate_uuid, c_str-generate_salt, c_str-hash_password,
}
use tiny_im.Database.Users.{
  has_id, new_user, insert_row, insert_result, register_user, read_login, check_login,
  authenticate_user, read_username, get_user_name_by_id,
}

abbrev pub with_users : Tables → List User → Tables
with_users t us = record t { users = us }

-- No row has this id.
abbrev pub IsFresh : Bytes → List User → Type 0
IsFresh id us = exists (has_id id) us ≡ false

select-IsFresh : (id : Bytes) (us : List User) → IsFresh id us → select (has_id id) us ≡ []
select-IsFresh id [] h = refl
select-IsFresh id (u ∷ us) h = ground (arith, select-IsFresh id us)

User-set : IsSet User
User-set = hlevel

-- A lookup of an id that one row has reads that row.
found_row :
    {e : Engine} (reads : ReadsAll e) (id : Bytes) (us : List User) (u : User)
    → select (has_id id) us ≡ u ∷ []
    → e.scan_users (select (has_id id) us) ≡ u ∷ []
found_row {e} reads id us u h = ap e.scan_users h ∙ perm_one User-set _ u (reads.users_all (u ∷ []))

none_found :
    {e : Engine} (reads : ReadsAll e) (id : Bytes) (us : List User)
    → IsFresh id us
    → e.scan_users (select (has_id id) us) ≡ []
none_found {e} reads id us h =
    ap e.scan_users (select-IsFresh id us h) ∙ Perm.eq-nil (reads.users_all [])

select_last :
    (id : Bytes) (us : List User) (u : User)
    → IsFresh id us
    → u.user_id ≡ id
    → select (has_id id) (us ++ u ∷ []) ≡ u ∷ []
select_last id us u h k =
    select-append (has_id id) us (u ∷ [])
    ∙ ground (arith, select-IsFresh id us h, same_iff u.user_id id)

module _ {e : Engine} (w : Works e) (sha256 : Bytes → Bytes) (r : Random) where
  pub register_user-healthy :
      (db : Db) (password username : Bytes)
      → IsHealthy db
      → InBounds r
      → IsFresh (generate_uuid r) db.tables.users
      → register_user e sha256 r password username db ≡ (
        left
            (with_users db.tables (db.tables.users ++ new_user sha256 r password username ∷ []))
            (rotate db.pool),
        ok (some (generate_uuid r)),
      )
  unfolding register_user insert_row insert_result new_user
  register_user-healthy db password username h b fresh =
      query-healthy e _ _ _ w db _ _ h
        (ground (arith, w.writes_all db.tables insert_user, c_str-generate_uuid r b))

  -- The row that was inserted is the one that its id finds.
  select_new :
      (us : List User) (password username : Bytes)
      → InBounds r
      → IsFresh (generate_uuid r) us
      → select (has_id (c_str (generate_uuid r))) (us ++ new_user sha256 r password username ∷ [])
        ≡ new_user sha256 r password username ∷ []
  select_new us password username b fresh =
      select_last (c_str (generate_uuid r)) us (new_user sha256 r password username)
        (rw (c_str-generate_uuid r b) fresh) (unfold new_user in refl)

-- What a login with an id answers when one row has this id and a name.
module _ {e : Engine} (w : Works e) (reads : ReadsAll e) (sha256 : Bytes → Bytes) where
  abbrev checked : Bytes → Db × Result (Option (Bytes × Bytes × Bytes)) → Db × Result (Option Bytes)
  checked password p = (p.0, check_login sha256 password p.1)

  pub authenticate_user-found :
      (db : Db) (id password name : Bytes) (u : User)
      → IsHealthy db
      → select (has_id (c_str id)) db.tables.users ≡ u ∷ []
      → u.username ≡ some name
      → authenticate_user e sha256 id password db ≡ (
        left db.tables (rotate db.pool),
        if same (hash_password sha256 password u.salt) u.password_hash
            then ok (some name)
            else ok none,
      )
  unfolding authenticate_user check_login read_login
  authenticate_user-found db id password name u h one named = ap (checked password) (
      query-healthy e select_login none _ w db db.tables (some (name, u.password_hash, u.salt)) h
        (rw (found_row reads (c_str id) db.tables.users u one, read_login, named)))

  pub authenticate_user-fresh :
      (db : Db) (id password : Bytes)
      → IsHealthy db
      → IsFresh (c_str id) db.tables.users
      → authenticate_user e sha256 id password db ≡ (left db.tables (rotate db.pool), ok none)
  unfolding authenticate_user check_login read_login
  authenticate_user-fresh db id password h fresh = ap (checked password) (
      query-healthy e select_login none _ w db db.tables none h
        (rw (none_found reads (c_str id) db.tables.users fresh, read_login)))

module _ {e : Engine} (w : Works e) (reads : ReadsAll e) where
  pub get_user_name_by_id-found :
      (db : Db) (id name : Bytes) (u : User)
      → IsHealthy db
      → select (has_id (c_str id)) db.tables.users ≡ u ∷ []
      → u.username ≡ some name
      → get_user_name_by_id e id db ≡ (left db.tables (rotate db.pool), ok (some name))
  unfolding get_user_name_by_id read_username
  get_user_name_by_id-found db id name u h one named =
      query-healthy e select_username none _ w db db.tables (some name) h
        (rw (found_row reads (c_str id) db.tables.users u one, read_username, named))

  pub get_user_name_by_id-fresh :
      (db : Db) (id : Bytes)
      → IsHealthy db
      → IsFresh (c_str id) db.tables.users
      → get_user_name_by_id e id db ≡ (left db.tables (rotate db.pool), ok none)
  unfolding get_user_name_by_id read_username
  get_user_name_by_id-fresh db id h fresh =
      query-healthy e select_username none _ w db db.tables none h
        (rw (none_found reads (c_str id) db.tables.users fresh, read_username))

new_user_hash :
    (sha256 : Bytes → Bytes) (r : Random) (password username : Bytes)
    → let u = new_user sha256 r password username in
      (u.salt ≡ generate_salt r)
      × (u.password_hash ≡ hash_password sha256 password (generate_salt r))
unfolding new_user
new_user_hash sha256 r password username =
    (c_str-generate_salt r, c_str-hash_password sha256 password (generate_salt r))

module _ {e : Engine} (w : Works e) (reads : ReadsAll e) (sha256 : Bytes → Bytes) (r : Random)
    (db : Db) (password username : Bytes) where
  -- A registration under a fresh id returns this id; a later login with the id and a password is
  -- answered with the name as a C string if its hash under the stored salt is that of the
  -- registered password, and refused if it is not; the pool is healthy after both calls. The
  -- engine works and reads all rows, the random draws are in their bounds and the pool was
  -- healthy.
  pub register_user-authenticate_user :
      (attempt : Bytes)
      → IsHealthy db
      → InBounds r
      → IsFresh (generate_uuid r) db.tables.users
      → let registered = register_user e sha256 r password username db in
        let entered = authenticate_user e sha256 (generate_uuid r) attempt registered.0 in
        (registered.1 ≡ ok (some (generate_uuid r)))
        × IsHealthy entered.0
        × (hash_password sha256 attempt (generate_salt r)
              ≡ hash_password sha256 password (generate_salt r)
            → entered.1 ≡ ok (some (c_str username)))
        × (hash_password sha256 attempt (generate_salt r)
              ≢ hash_password sha256 password (generate_salt r)
            → entered.1 ≡ ok none)
  register_user-authenticate_user attempt h b fresh =
      let u = new_user sha256 r password username in
      let us = db.tables.users ++ u ∷ [] in
      let db' = left (with_users db.tables us) (rotate db.pool) in
      let h' = IsHealthy-rotate (with_users db.tables us) db h in
      let found =
        authenticate_user-found w reads sha256 db' (generate_uuid r) attempt (c_str username) u h'
          (select_new w sha256 r db.tables.users password username b fresh)
          (unfold new_user in refl) in
      let hash = new_user_hash sha256 r password username in
      let test = same_iff (hash_password sha256 attempt u.salt) u.password_hash in
      rw (register_user-healthy w sha256 r db password username h b fresh, found)
        (
          refl,
          IsHealthy-rotate (with_users db.tables us) db' h',
          λ e. ground (arith, test, hash),
          λ n. ground (arith, test, hash),
        )

-- With no connection left a login waits for ever.
pub authenticate_user-blocked :
    (e : Engine) (sha256 : Bytes → Bytes) (id password : Bytes) (db : Db)
    → db.pool ≡ []
    → authenticate_user e sha256 id password db ≡ (db, blocked)
unfolding authenticate_user check_login
authenticate_user-blocked e sha256 id password db h =
    ap
      (λ (p : Db × Result (Option (Bytes × Bytes × Bytes))). (p.0, check_login sha256 password p.1))
      (query-blocked e select_login none _ db h)

read_username-tables : (t : Tables) (us : List User) → (read_username t us).0 ≡ t
unfolding read_username
read_username-tables t [] = refl
read_username-tables t (u ∷ us) = elim (Option-cases u.username) [
  | inl n ↦ rw n refl
  | inr (name, y) ↦ rw y refl
]

-- A look-up of a name leaves the rows as they are, however it ends.
pub get_user_name_by_id-tables :
    (e : Engine) (id : Bytes) (db : Db) → (get_user_name_by_id e id db).0.tables ≡ db.tables
unfolding get_user_name_by_id
get_user_name_by_id-tables e id db =
    query-tables e _ _ _ (λ t. t ≡ db.tables) db refl (read_username-tables db.tables _)

-- On a connection that could not be opened nobody's password is right.
pub authenticate_user-closed :
    (e : Engine) (sha256 : Bytes → Bytes) (id password : Bytes) (t : Tables) (c : Connection)
    (rest : List Connection)
    → c.opened ≡ false
    → authenticate_user e sha256 id password (left t (c ∷ rest)) ≡ (left t rest, ok none)
unfolding authenticate_user check_login
authenticate_user-closed e sha256 id password t c rest h =
    ap
      (λ (p : Db × Result (Option (Bytes × Bytes × Bytes))). (p.0, check_login sha256 password p.1))
      (query-closed e select_login none _ t c rest h)
