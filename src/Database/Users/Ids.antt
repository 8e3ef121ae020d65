-- ===== src/Database/Users/Ids.antt =====
-- User ids stay unique: the primary key under the writes.

use tiny_im.Prelude.{
  ◌≡◌, ◌≢◌, refl, not, ◌&&◌, List, [], ◌∷◌, ◌++◌, map, arith, Bytes, c_str, same_iff, exists, inl,
  inr, Bool-cases,
}
use tiny_im.Database.Schema.{Tables, User, insert_user, update_username}
use tiny_im.Database.Engine.{Engine}
use tiny_im.Database.Pool.{Db}
use tiny_im.Database.Pool.Frame.{query-tables}
use tiny_im.Database.Credentials.{Random, generate_uuid}
use tiny_im.Database.Users.Accounts.{IsFresh}
use tiny_im.Database.Users.{
  has_id, new_user, insert_row, insert_result, register_user, rename, set_username,
}

-- No two rows have one id: the primary key of the users table.
abbrev pub UniqueIds : List User → Type 0
UniqueIds [] = Unit {0}
UniqueIds (u ∷ us) = IsFresh u.user_id us × UniqueIds us

IsFresh-append :
    (id : Bytes) (us : List User) (u : User)
    → IsFresh id us
    → id ≢ u.user_id
    → IsFresh id (us ++ u ∷ [])
IsFresh-append id [] u h n = ground (arith, same_iff u.user_id id)
IsFresh-append id (x ∷ us) u h n = ground (arith, IsFresh-append id us u)

UniqueIds-append :
    (us : List User) (u : User) → UniqueIds us → IsFresh u.user_id us → UniqueIds (us ++ u ∷ [])
UniqueIds-append [] u h n = (refl, tt)
UniqueIds-append (x ∷ us) u h n = (
  IsFresh-append x.user_id us u h.0 (λ e. ground (arith, same_iff x.user_id u.user_id)),
  UniqueIds-append us u h.1 (ground arith),
)

IsFresh-rename :
    (id id' name : Bytes) (us : List User) → IsFresh id us → IsFresh id (map (rename id' name) us)
unfolding rename
IsFresh-rename id id' name [] h = refl
IsFresh-rename id id' name (u ∷ us) h = ground (arith, IsFresh-rename id id' name us)

rename-user_id : (id name : Bytes) (u : User) → (rename id name u).user_id ≡ u.user_id
unfolding rename
rename-user_id id name u = ground arith

UniqueIds-rename :
    (id name : Bytes) (us : List User) → UniqueIds us → UniqueIds (map (rename id name) us)
UniqueIds-rename id name [] h = tt
UniqueIds-rename id name (u ∷ us) h = (
  rw (rename-user_id id name u) (IsFresh-rename u.user_id id name us h.0),
  UniqueIds-rename id name us h.1,
)

insert_row-UniqueIds :
    (e : Engine) (u : User) (id : Bytes) (t : Tables)
    → UniqueIds t.users
    → UniqueIds (insert_result id (insert_row e u t)).0.users
unfolding insert_row insert_result
insert_row-UniqueIds e u id t h =
    elim (Bool-cases (e.writes t insert_user && not (exists (has_id u.user_id) t.users))) [
      | inl y ↦ rw y (UniqueIds-append t.users u h (ground arith))
      | inr n ↦ rw n h
    ]

-- User ids stay unique whatever the engine, the random source and the pool do: a registration or a
-- change of a name leaves no two rows of one id, if there were none before.
pub register_user-UniqueIds :
    (e : Engine) (sha256 : Bytes → Bytes) (r : Random) (password username id name : Bytes) (db : Db)
    → UniqueIds db.tables.users
    → UniqueIds (register_user e sha256 r password username db).0.tables.users
      × UniqueIds (set_username e id name db).0.tables.users
unfolding register_user set_username
register_user-UniqueIds e sha256 r password username id name db h = (
  query-tables e _ _ _ (λ t. UniqueIds t.users) db h
      (insert_row-UniqueIds e (new_user sha256 r password username) (generate_uuid r) db.tables h),
  query-tables e _ _ _ (λ t. UniqueIds t.users) db h
      (elim (Bool-cases (e.writes db.tables update_username)) [
        | inl y ↦ rw y (UniqueIds-rename (c_str id) (c_str name) db.tables.users h)
        | inr n ↦ rw n h
      ]),
)
