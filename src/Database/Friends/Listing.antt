-- ===== src/Database/Friends/Listing.antt =====
-- The friend list: the ids and the names of the accepted friends, read by two queries and paired by
-- position.
use mathlib.Core.List
use mathlib.Core.List.{Perm}
use mathlib.Core.List.Perm
use tiny_im.Prelude.{
  suc, ◌≤◌, ◌<◌, ◌≡◌, refl, sym, subst, ap, ◌∙◌, List, [], ◌∷◌, ◌++◌, map, Option, none, some,
  arith, Bytes, length, c_str, same_iff, if◌then◌else◌, select, inl, inr, Option-cases, ◌>>=◌,
}
use tiny_im.Prelude.Perms.{length-perm}
use tiny_im.Database.Schema.{User, Friend, select_friend_names, select_friend_ids}
use tiny_im.Database.Engine.{Engine, Works, ReadsAll}
use tiny_im.Database.Pool.{Db, Result, ok}
use tiny_im.Database.Pool.Frame.{IsHealthy, rotate, left, query-healthy, IsHealthy-rotate}
use tiny_im.Database.Users.{has_id}
use tiny_im.Database.Users.Accounts.{IsFresh}
use tiny_im.Database.Users.Ids.{UniqueIds}
use tiny_im.Database.Friends.{
  accepted, matches, join, usernames, get_friend_list_username, get_friend_list, zip_pairs, pair_up,
  pair_results, then_names, get_friend_pair,
}

-- The name of the row of an id; none if there is no row, or if it has no name.
unfoldable pub name_of : Bytes → List User → Option Bytes
name_of id [] = none
name_of id (u ∷ us) = if has_id id u then u.username else name_of id us

-- Each friend's id with the name of the row of this id; none if a friend has no name.
unfoldable pub named_pairs : List Friend → List User → Option (List (Bytes × Bytes))
named_pairs [] us = some []
named_pairs (f ∷ fs) us = do
  name ← name_of f.friend_id us
  rest ← named_pairs fs us
  some ((f.friend_id, name) ∷ rest)

-- What pairing by position makes of these pairs, whatever order the two queries choose: the ids are
-- theirs and the names are theirs, each as often, but an id need not stand with its own name; and
-- the list is empty if there are no such pairs.
abbrev pub PairsUp : Option (List (Bytes × Bytes)) → List (Bytes × Bytes) → Type 0
PairsUp none l = l ≡ []
PairsUp (some ps) l =
    Perm (map (λ (p : Bytes × Bytes). p.0) l) (map (λ (p : Bytes × Bytes). p.0) ps)
    × Perm (map (λ (p : Bytes × Bytes). p.1) l) (map (λ (p : Bytes × Bytes). p.1) ps)

abbrev found_names : Option Bytes → List Bytes
found_names none = []
found_names (some n) = n ∷ []

matches-IsFresh : (f : Friend) (us : List User) → IsFresh f.friend_id us → matches f us ≡ []
unfolding matches
matches-IsFresh f [] h = refl
matches-IsFresh f (u ∷ us) h =
    ground
      (arith, matches-IsFresh f us, same_iff f.friend_id u.user_id, same_iff u.user_id f.friend_id)

usernames-matches :
    (f : Friend) (us : List User)
    → UniqueIds us
    → usernames (matches f us) ≡ found_names (name_of f.friend_id us)
unfolding matches usernames name_of
usernames-matches f [] h = refl
usernames-matches f (u ∷ us) h = ground (
  arith,
  usernames-matches f us h.1,
  matches-IsFresh f us,
  same_iff f.friend_id u.user_id,
  same_iff u.user_id f.friend_id,
  h.0,
)

usernames-append :
    (xs ys : List (Friend × User)) → usernames (xs ++ ys) ≡ usernames xs ++ usernames ys
unfolding usernames
usernames-append [] ys = refl
usernames-append ((f, u) ∷ xs) ys = ground (arith, usernames-append xs ys)

names_of : List Friend → List User → List Bytes
names_of [] us = []
names_of (f ∷ fs) us = found_names (name_of f.friend_id us) ++ names_of fs us

usernames-join :
    (fs : List Friend) (us : List User) → UniqueIds us → usernames (join fs us) ≡ names_of fs us
unfolding join names_of
usernames-join [] us h = unfold usernames in refl
usernames-join (f ∷ fs) us h =
    usernames-append (matches f us) (join fs us)
    ∙ rw (usernames-matches f us h, usernames-join fs us h)

length-names_of-le : (fs : List Friend) (us : List User) → length (names_of fs us) ≤ length fs
unfolding names_of
length-names_of-le [] us = omega arith
length-names_of-le (f ∷ fs) us = ground (arith, length-names_of-le fs us)

abbrev ids : List Friend → List Bytes
ids = map (λ f. f.friend_id)

length-ids : (fs : List Friend) → length (ids fs) ≡ length fs
length-ids [] = refl
length-ids (f ∷ fs) = ap suc (length-ids fs)

-- A friend without a name makes the names fewer.
names_of-missing :
    (fs : List Friend) (us : List User)
    → named_pairs fs us ≡ none
    → length (names_of fs us) < length fs
unfolding names_of named_pairs
names_of-missing [] us h = cc
names_of-missing (f ∷ fs) us h = ground (arith, names_of-missing fs us, length-names_of-le fs us)

-- If each friend has one, the pairs are of these ids and these names.
names_of-named :
    (fs : List Friend) (us : List User) (ps : List (Bytes × Bytes))
    → named_pairs fs us ≡ some ps
    → (length (names_of fs us) ≡ length fs)
      × (map (λ (p : Bytes × Bytes). p.0) ps ≡ ids fs)
      × (map (λ (p : Bytes × Bytes). p.1) ps ≡ names_of fs us)
unfolding names_of named_pairs
names_of-named [] us ps h = let e : [] ≡ ps = ground arith in rw (sym e) (refl, refl, refl)
names_of-named (f ∷ fs) us ps h = elim (Option-cases (name_of f.friend_id us)) [
  | inl n ↦ absurd (ground (arith, n))
  | inr (name, y) ↦ elim (Option-cases (named_pairs fs us)) [
    | inl n ↦ absurd (ground (arith, n))
    | inr (qs, z) ↦
        let ih = names_of-named fs us qs z in
        let e : (f.friend_id, name) ∷ qs ≡ ps = ground (arith, y, z) in
        rw (y, sym e) (ap suc ih.0, ap (λ l. f.friend_id ∷ l) ih.1, ap (λ l. name ∷ l) ih.2)
  ]
]

zip_pairs-both :
    (is ns : List Bytes)
    → length is ≡ length ns
    → (map (λ (p : Bytes × Bytes). p.0) (zip_pairs is ns) ≡ is)
      × (map (λ (p : Bytes × Bytes). p.1) (zip_pairs is ns) ≡ ns)
unfolding zip_pairs
zip_pairs-both [] [] h = (refl, refl)
zip_pairs-both [] (n ∷ ns) h = absurd (omega arith)
zip_pairs-both (i ∷ is) [] h = absurd (omega arith)
zip_pairs-both (i ∷ is) (n ∷ ns) h =
    let ih = zip_pairs-both is ns (omega arith) in (ap (λ l. i ∷ l) ih.0, ap (λ l. n ∷ l) ih.1)

usernames-filter_map :
    (l : List (Friend × User))
    → List.filter_map (λ (p : Friend × User). p.1.username) l ≡ usernames l
unfolding List.filter_map usernames
usernames-filter_map [] = refl
usernames-filter_map ((f, u) ∷ l) = ground (arith, usernames-filter_map l)

usernames-perm : {l m : List (Friend × User)} → Perm l m → Perm (usernames l) (usernames m)
usernames-perm {l} {m} p =
    rw (sym (usernames-filter_map l), sym (usernames-filter_map m))
      (Perm.filter_map (λ (q : Friend × User). q.1.username) p)

pair_up-PairsUp :
    (fs : List Friend) (us : List User) (is ns : List Bytes)
    → Perm is (ids fs)
    → Perm ns (names_of fs us)
    → PairsUp (named_pairs fs us) (pair_up is ns)
unfolding pair_up
pair_up-PairsUp fs us is ns p q = elim (Option-cases (named_pairs fs us)) [
  | inl n ↦
      rw n (ground (arith, names_of-missing fs us n, length-ids fs, length-perm p, length-perm q))
  | inr (ps, y) ↦
      let (same_length, theirs, named) = names_of-named fs us ps y in
      let lengths : length is ≡ length ns =
        omega (arith, same_length, length-ids fs, length-perm p, length-perm q) in
      let both = zip_pairs-both is ns lengths in
      let up : pair_up is ns ≡ zip_pairs is ns = unfold pair_up in ground (arith, lengths) in
      rw (y, up) (rw (both.0, theirs) p, rw (both.1, named) q)
]

pub get_friend_pair-PairsUp :
    {e : Engine} (w : Works e) (reads : ReadsAll e) (id : Bytes) (db : Db)
    → IsHealthy db
    → UniqueIds db.tables.users
    → (l : List (Bytes × Bytes)) × (get_friend_pair e id db
        ≡ (left db.tables (rotate (rotate db.pool)), ok l))
      × PairsUp (named_pairs (select (accepted (c_str id)) db.tables.friends) db.tables.users) l
unfolding get_friend_pair then_names pair_results get_friend_list get_friend_list_username
get_friend_pair-PairsUp {e} w reads id db h unique =
    let fs = select (accepted (c_str id)) db.tables.friends in
    let us = db.tables.users in
    let db' = left db.tables (rotate db.pool) in
    let is = ids (e.scan_friends fs) in
    let ns = usernames (e.scan_join (join fs us)) in
    let first = query-healthy e select_friend_ids [] _ w db db.tables is h refl in
    let second =
      query-healthy e select_friend_names [] _ w db' db.tables ns (IsHealthy-rotate db.tables db h)
        refl in
    (
      pair_up is ns,
      ap (then_names e id) first
          ∙ ap (λ (r : Db × Result (List Bytes)). (r.0, pair_results (ok is) r.1)) second,
      pair_up-PairsUp fs us is ns (Perm.map (λ (f : Friend). f.friend_id) (reads.friends_all fs)) (
          subst (Perm ns) (usernames-join fs us unique)
            (usernames-perm (reads.join_all (join fs us)))),
    )
