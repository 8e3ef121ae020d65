-- ===== src/Database/Contract/Listing.antt =====
-- What `getFriendPair` answers, from the view that the tables show.
use tiny_im.Prelude.{
  ◌≤◌, ◌≡◌, refl, subst, ap, ◌∙◌, List, [], ◌∷◌, map, Option, none, some, arith, Bytes, c_str,
  same_refl, length, select,
}
use tiny_im.Database.Schema.{User, Friend}
use tiny_im.Database.Engine.{Engine, Works, ReadsAll}
use tiny_im.Database.Pool.{Db, ok}
use tiny_im.Database.Pool.Frame.{rotate, left}
use tiny_im.Database.Users.{has_id}
use tiny_im.Database.Users.Ids.{UniqueIds}
use tiny_im.Database.Friends.{accepted, get_friend_pair}
use tiny_im.Database.Friends.Listing
use tiny_im.Database.Friends.Listing.{named_pairs, PairsUp, get_friend_pair-PairsUp}
use tiny_im.Database.Contract.{Account, View, Represents, rows_of, name_of, named_friends, Lists}
use tiny_im.Database.Contract.Accounts.{exists-select}
use tiny_im.Database.Contract.Pairs.{select-accepted}

-- The name in the first row.
abbrev first_name : List User → Option Bytes
first_name [] = none
first_name (u ∷ us) = u.username

name_of-select :
    (id : Bytes) (us : List User) → Listing.name_of id us ≡ first_name (select (has_id id) us)
unfolding Listing.name_of
name_of-select id [] = refl
name_of-select id (u ∷ us) = ground (arith, name_of-select id us)

first_name-rows_of : (id : Bytes) (o : Option Account) → first_name (rows_of id o) ≡ name_of o
first_name-rows_of id none = refl
first_name-rows_of id (some a) = refl

length-rows_of : (id : Bytes) (o : Option Account) → length (rows_of id o) ≤ 1
length-rows_of id none = omega arith
length-rows_of id (some a) = omega arith

-- If each id has one row at most, ids are unique.
one_row-UniqueIds :
    (us : List User) → ((id : Bytes) → length (select (has_id id) us) ≤ 1) → UniqueIds us
one_row-UniqueIds [] h = tt
one_row-UniqueIds (u ∷ us) h = (
  ground (arith, exists-select u.user_id us, h u.user_id, same_refl u.user_id),
  one_row-UniqueIds us (λ id. ground (arith, h id)),
)

module _ (us : List User) (account : Bytes → Option Account)
    (rows : (id : Bytes) → select (has_id id) us ≡ rows_of id (account id)) where
  accounts-UniqueIds : UniqueIds us
  accounts-UniqueIds =
      one_row-UniqueIds us
        (λ id. ground (arith, ap length (rows id), length-rows_of id (account id)))

  named_pairs-named_friends :
      (fs : List Friend)
      → named_pairs fs us ≡ named_friends account (map (λ (f : Friend). f.friend_id) fs)
  unfolding named_pairs
  named_pairs-named_friends [] = refl
  named_pairs-named_friends (f ∷ fs) =
      rw
        (
          name_of-select f.friend_id us
              ∙ ap first_name (rows f.friend_id)
              ∙ first_name-rows_of f.friend_id (account f.friend_id),
          named_pairs-named_friends fs,
        )
        refl

-- The ids of the accepted friends, each once, paired by position with their names.
pub get_friend_pair-named_friends :
    {e : Engine} (w : Works e) (reads : ReadsAll e) (db : Db) (v : View)
    → Represents db v
    → (id : Bytes)
    → (ids : List Bytes) × Lists ids (c_str id) v
      × (l : List (Bytes × Bytes)) × PairsUp (named_friends v.account ids) l
      × (get_friend_pair e id db ≡ (left db.tables (rotate (rotate db.pool)), ok l))
get_friend_pair-named_friends w reads db v r id =
    let fs = select (accepted (c_str id)) db.tables.friends in
    let us = db.tables.users in
    let (l, eq, up) =
      get_friend_pair-PairsUp w reads id db r.healthy
        (accounts-UniqueIds us v.account r.shows.accounts) in
    (
      map (λ (f : Friend). f.friend_id) fs,
      λ x. select-accepted (c_str id) x db.tables.friends v.status r.shows.pairs,
      l,
      subst (λ o. PairsUp o l) (named_pairs-named_friends us v.account r.shows.accounts fs) up,
      eq,
    )
