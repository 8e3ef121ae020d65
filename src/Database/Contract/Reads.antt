-- ===== src/Database/Contract/Reads.antt =====
-- What the reads of `Database` answer, from the view that the tables show.
use tiny_im.Prelude.{
  ◌≡◌, refl, ap, subst, ◌∙◌, List, [], ◌∷◌, same, if◌then◌else◌, map, Option, none, some, arith,
  Bytes, c_str, select,
}
use mathlib.Core.List.{Perm}
use mathlib.Core.List.Perm
use tiny_im.Database.Schema.{Friend, OfflineMessage, select_friend_ids, select_offline}
use tiny_im.Database.Engine.{Engine, Works, ReadsAll}
use tiny_im.Database.Pool.{Db, ok}
use tiny_im.Database.Pool.Frame.{IsHealthy, IsHealthy-rotate, rotate, left, query-healthy}
use tiny_im.Database.Users.{has_id, authenticate_user, get_user_name_by_id}
use tiny_im.Database.Users.Accounts.{
  authenticate_user-found, authenticate_user-fresh, get_user_name_by_id-found,
  get_user_name_by_id-fresh,
}
use tiny_im.Database.Messages.{get_offline_messages, kept_for}
use tiny_im.Database.Contract.{is_accepted, View, Account, Represents, rows_of, checks, name_of}
use tiny_im.Prelude.Perms.{perm_if, perm_select}
use tiny_im.Database.Friends.{get_friend_list, accepted}
use tiny_im.Database.Contract.Pairs.{select-accepted}
use tiny_im.Database.Contract.Accounts.{exists-select, some_row}

Bytes-set : IsSet Bytes
Bytes-set = hlevel

module _ {e : Engine} (w : Works e) (reads : ReadsAll e) where
  login_by :
      (sha256 : Bytes → Bytes) (id password : Bytes) (db : Db)
      → IsHealthy db
      → (o : Option Account) → select (has_id (c_str id)) db.tables.users ≡ rows_of (c_str id) o
      → authenticate_user e sha256 id password db
        ≡ (left db.tables (rotate db.pool), ok (checks sha256 password o))
  login_by sha256 id password db h none rows =
      authenticate_user-fresh w reads sha256 db id password h
        (exists-select (c_str id) db.tables.users ∙ ap some_row rows)
  login_by sha256 id password db h (some a) rows =
      authenticate_user-found w reads sha256 db id password a.name _ h rows refl ∙ ground arith

  name_by :
      (id : Bytes) (db : Db)
      → IsHealthy db
      → (o : Option Account) → select (has_id (c_str id)) db.tables.users ≡ rows_of (c_str id) o
      → get_user_name_by_id e id db ≡ (left db.tables (rotate db.pool), ok (name_of o))
  name_by id db h none rows =
      get_user_name_by_id-fresh w reads db id h
        (exists-select (c_str id) db.tables.users ∙ ap some_row rows)
  name_by id db h (some a) rows = get_user_name_by_id-found w reads db id a.name _ h rows refl

  module _ (db : Db) (v : View) (r : Represents db v) where
    pub authenticate_user-checks :
        (sha256 : Bytes → Bytes) (id password : Bytes)
        → authenticate_user e sha256 id password db
          ≡ (left db.tables (rotate db.pool), ok (checks sha256 password (v.account (c_str id))))
    authenticate_user-checks sha256 id password =
        login_by sha256 id password db r.healthy (v.account (c_str id))
          (r.shows.accounts (c_str id))

    pub get_user_name_by_id-name_of :
        (id : Bytes)
        → get_user_name_by_id e id db
          ≡ (left db.tables (rotate db.pool), ok (name_of (v.account (c_str id))))
    get_user_name_by_id-name_of id =
        name_by id db r.healthy (v.account (c_str id)) (r.shows.accounts (c_str id))

    pub read-Represents : Represents (left db.tables (rotate db.pool)) v
    read-Represents = record { healthy = IsHealthy-rotate db.tables db r.healthy; shows = r.shows }

    -- The kept messages are read in an order that the engine chooses.
    pub get_offline_messages-kept_of :
        (id : Bytes)
        → (l : List Bytes) × (get_offline_messages e id db
            ≡ (left db.tables (rotate db.pool), ok l))
          × Perm l (v.kept_of (c_str id))
    unfolding get_offline_messages
    get_offline_messages-kept_of id =
        let ms = select (kept_for (c_str id)) db.tables.offline_messages in
        (
          map (λ m. m.content) (e.scan_offline ms),
          query-healthy e select_offline [] _ w db db.tables _ r.healthy refl,
          subst (Perm _) (r.shows.kept_all (c_str id))
              (Perm.map (λ (m : OfflineMessage). m.content) (reads.offline_all ms)),
        )

    -- The accepted friends, each once, in an order that the engine chooses.
    pub get_friend_list-is_accepted :
        (id : Bytes)
        → (l : List Bytes) × (get_friend_list e id db ≡ (left db.tables (rotate db.pool), ok l))
          × ((x : Bytes)
              → select (same x) l ≡ (if is_accepted (v.status (c_str id) x) then x ∷ [] else []))
    unfolding get_friend_list
    get_friend_list-is_accepted id =
        let fs = select (accepted (c_str id)) db.tables.friends in
        let ids = λ (l : List Friend). map (λ (f : Friend). f.friend_id) l in
        (
          ids (e.scan_friends fs),
          query-healthy e select_friend_ids [] _ w db db.tables _ r.healthy refl,
          λ x. perm_if Bytes-set (select (same x) (ids (e.scan_friends fs))) x _ (
              subst (Perm _) (select-accepted (c_str id) x db.tables.friends v.status r.shows.pairs)
                (perm_select (same x)
                  (Perm.map (λ (f : Friend). f.friend_id) (reads.friends_all fs)))),
        )
