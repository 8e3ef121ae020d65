-- ===== src/Database/Contract/Users.antt =====
-- The writes of the users table under the contract.
use tiny_im.Prelude.{
  ◌≡◌, refl, ap, sym, subst, ◌∙◌, true, false, [], ◌∷◌, ◌++◌, map, Option, none, some, arith, Bytes,
  c_str, select, exists,
}
use tiny_im.Database.Schema.{insert_user, update_username}
use tiny_im.Database.Engine.{Engine, Works}
use tiny_im.Database.Pool.{ok, Db}
use tiny_im.Database.Pool.Frame.{query-healthy, IsHealthy-rotate}
use tiny_im.Database.Credentials.{Random, InBounds, generate_uuid, generate_salt, hash_password}
use tiny_im.Database.Credentials.Shape.{
  c_str-generate_uuid, c_str-generate_salt, c_str-hash_password,
}
use tiny_im.Database.Users.{
  has_id, new_user, insert_row, insert_result, register_user, set_username, rename,
}
use tiny_im.Database.Calls.{registers, renames}
use tiny_im.Database.Contract.{issued, View, Account, does, Represents, rows_of, enroll}
use tiny_im.Database.Users.Accounts.{with_users, register_user-healthy}
use tiny_im.Database.Contract.Writes.{query-Represents}
use tiny_im.Database.Contract.Accounts.{some_row, exists-select, select-renamed, select-enrolled}

module _ {e : Engine} (w : Works e) where
  pub set_username-Represents :
      (sha256 : Bytes → Bytes) (id name : Bytes) (db : Db) (v : View)
      → Represents db v
      → Represents (set_username e id name db).0 (does sha256 v (renames id name))
  unfolding set_username does
  set_username-Represents sha256 id name db v r =
      query-Represents w update_username false _ db
        (with_users db.tables (map (rename (c_str id) (c_str name)) db.tables.users)) true _
        r.healthy (rw (w.writes_all db.tables update_username) refl)
        (record {
          accounts = λ k.
              select-renamed (c_str id) (c_str name) k db.tables.users (v.account k)
                (r.shows.accounts k);
          pairs = r.shows.pairs;
          kept_all = r.shows.kept_all;
          talk_all = r.shows.talk_all;
          sequence_all = r.shows.sequence_all;
        })

  abbrev enrolled : (Bytes → Bytes) → Random → Bytes → Bytes → Account
  enrolled sha256 r password name = record {
    name = c_str name;
    password_hash = hash_password sha256 password (generate_salt r);
    salt = generate_salt r;
  }

  new_user-rows_of :
      (sha256 : Bytes → Bytes) (r : Random) (password name : Bytes)
      → InBounds r
      → new_user sha256 r password name ∷ []
        ≡ rows_of (generate_uuid r) (some (enrolled sha256 r password name))
  unfolding new_user
  new_user-rows_of sha256 r password name b = ground (
    arith,
    c_str-generate_uuid r b,
    c_str-generate_salt r,
    c_str-hash_password sha256 password (generate_salt r),
  )

  taken_or_free :
      (sha256 : Bytes → Bytes) (r : Random) (password name : Bytes) (db : Db) (v : View)
      → InBounds r
      → Represents db v
      → (o : Option Account) → v.account (generate_uuid r) ≡ o
      → Represents
          (register_user e sha256 r password name db).0
          (enroll (generate_uuid r) (enrolled sha256 r password name) o v)
  unfolding register_user insert_row insert_result new_user
  taken_or_free sha256 r password name db v b rep none free =
      let id = generate_uuid r in
      let us = db.tables.users in
      let unused : select (has_id id) us ≡ [] = rep.shows.accounts id ∙ ap (rows_of id) free in
      subst (λ q. Represents q.0 (enroll id (enrolled sha256 r password name) none v))
        (sym (
          register_user-healthy w sha256 r db password name rep.healthy b
            (exists-select id us ∙ ap some_row unused)))
        (record {
          healthy = IsHealthy-rotate _ db rep.healthy;
          shows = record {
            accounts = λ k.
                ap (λ x. select (has_id k) (us ++ x)) (new_user-rows_of sha256 r password name b)
                ∙ select-enrolled id k us (enrolled sha256 r password name) (v.account k) unused
                    (rep.shows.accounts k);
            pairs = rep.shows.pairs;
            kept_all = rep.shows.kept_all;
            talk_all = rep.shows.talk_all;
            sequence_all = rep.shows.sequence_all;
          };
        })
  taken_or_free sha256 r password name db v b rep (some a) taken =
      let id = generate_uuid r in
      let used : exists (has_id id) db.tables.users ≡ true =
        exists-select id db.tables.users
        ∙ ap some_row (rep.shows.accounts id ∙ ap (rows_of id) taken) in
      query-Represents w insert_user none _ db db.tables none v rep.healthy
        (ground (arith, used, c_str-generate_uuid r b)) rep.shows

  pub register_user-Represents :
      (sha256 : Bytes → Bytes) (r : Random) (password name : Bytes) (db : Db) (v : View)
      → InBounds r
      → Represents db v
      → Represents
          (register_user e sha256 r password name db).0
          (does sha256 v (registers r password name))
  unfolding does
  register_user-Represents sha256 r password name db v b rep =
      taken_or_free sha256 r password name db v b rep (v.account (generate_uuid r)) refl

  -- A registration returns its id if the id was free.
  issued_by :
      (sha256 : Bytes → Bytes) (r : Random) (password name : Bytes) (db : Db) (v : View)
      → InBounds r
      → Represents db v
      → (o : Option Account) → v.account (generate_uuid r) ≡ o
      → (register_user e sha256 r password name db).1 ≡ ok (issued (generate_uuid r) o)
  unfolding register_user insert_row insert_result new_user
  issued_by sha256 r password name db v b rep none free =
      let id = generate_uuid r in
      let unused : select (has_id id) db.tables.users ≡ [] =
        rep.shows.accounts id ∙ ap (rows_of id) free in
      ap (λ q. q.1)
        (register_user-healthy w sha256 r db password name rep.healthy b
          (exists-select id db.tables.users ∙ ap some_row unused))
  issued_by sha256 r password name db v b rep (some a) taken =
      let id = generate_uuid r in
      let used : exists (has_id id) db.tables.users ≡ true =
        exists-select id db.tables.users
        ∙ ap some_row (rep.shows.accounts id ∙ ap (rows_of id) taken) in
      ap (λ q. q.1)
        (query-healthy e insert_user none _ w db db.tables none rep.healthy
          (ground (arith, used, c_str-generate_uuid r b)))

  pub register_user-issued :
      (sha256 : Bytes → Bytes) (r : Random) (password name : Bytes) (db : Db) (v : View)
      → InBounds r
      → Represents db v
      → (register_user e sha256 r password name db).1
        ≡ ok (issued (generate_uuid r) (v.account (generate_uuid r)))
  register_user-issued sha256 r password name db v b rep =
      issued_by sha256 r password name db v b rep (v.account (generate_uuid r)) refl
