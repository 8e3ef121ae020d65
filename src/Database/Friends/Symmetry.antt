-- ===== src/Database/Friends/Symmetry.antt =====
-- The friends table as a relation: the two directions of a pair, under requests, acceptances and
-- rejections.
use tiny_im.Prelude.{
  ℕ, ◌≡◌, ◌≢◌, refl, ap, sym, subst, Bool, true, ◌||◌, List, [], ◌∷◌, none, some, if◌then◌else◌,
  arith, Bytes, c_str, same_iff, same_refl,
}
use tiny_im.Database.Schema.{Friend}
use tiny_im.Database.Engine.{Engine, Works}
use tiny_im.Database.Pool.{Db, Result, ok}
use tiny_im.Database.Pool.Frame.{IsHealthy, IsHealthy-rotate}
use tiny_im.Database.Friends.{
  insert_or_ignore, add_friend, accept_pair, ack_add_friend, remove_friend,
}
use tiny_im.Database.Friends.Rows.{
  status_of, same_pair, or_else, set_to, status_of-insert_or_ignore, status_of-accept_pair,
  status_of-delete_pair,
}
use tiny_im.Database.Friends.Calls.{
  add_friend-healthy, ack_add_friend-healthy, remove_friend-healthy, both_ways,
}

-- Both directions of every pair have one status.
abbrev pub IsSymmetric : List Friend → Type 0
IsSymmetric fs = (c d : Bytes) → status_of c d fs ≡ status_of d c fs

pub both_ways-status_of :
    (a b c d : Bytes) (fs : List Friend)
    → status_of c d (both_ways a b fs) ≡ (
        if same_pair a b c d || same_pair b a c d
        then or_else (status_of c d fs) (some 0)
        else status_of c d fs)
both_ways-status_of a b c d fs = ground (
  arith,
  status_of-insert_or_ignore b a c d (insert_or_ignore a b fs),
  status_of-insert_or_ignore a b c d fs,
  status_of-insert_or_ignore a b b a fs,
  same_iff a c,
  same_iff b d,
  same_iff b c,
  same_iff a d,
  same_iff a b,
  same_iff b a,
)

both_ways-IsSymmetric :
    (a b : Bytes) (fs : List Friend) → IsSymmetric fs → IsSymmetric (both_ways a b fs)
both_ways-IsSymmetric a b fs h c d =
    ground (arith, both_ways-status_of a b c d fs, both_ways-status_of a b d c fs, h c d)

accept_pair-IsSymmetric :
    (a b : Bytes) (fs : List Friend) → IsSymmetric fs → IsSymmetric (accept_pair a b fs)
accept_pair-IsSymmetric a b fs h c d =
    ground (arith, status_of-accept_pair a b c d fs, status_of-accept_pair a b d c fs, h c d)

module _ {e : Engine} (w : Works e) (db : Db) (user friend : Bytes) (healthy : IsHealthy db) where
  -- A request leaves a row in each direction, with the status it had or pending, and no other
  -- pair's status changes; the call returns true and keeps the pool healthy. The engine works and
  -- the pool was healthy.
  pub add_friend-status_of :
      let after = add_friend e user friend db in
      (after.1 ≡ ok true)
      × IsHealthy after.0
      × ((c d : Bytes)
          → status_of c d after.0.tables.friends ≡ (
              if same_pair (c_str user) (c_str friend) c d
                || same_pair (c_str friend) (c_str user) c d
              then or_else (status_of c d db.tables.friends) (some 0)
              else status_of c d db.tables.friends))
  add_friend-status_of = rw (add_friend-healthy w db user friend healthy) (
    refl,
    IsHealthy-rotate _ db healthy,
    λ c d. both_ways-status_of (c_str user) (c_str friend) c d db.tables.friends,
  )

  -- An acceptance sets the status of the rows of both directions to 1, where they exist, and no
  -- other pair's status changes; the call returns true and keeps the pool healthy. The engine
  -- works and the pool was healthy.
  pub ack_add_friend-status_of :
      let after = ack_add_friend e user friend db in
      (after.1 ≡ ok true)
      × IsHealthy after.0
      × ((c d : Bytes)
          → status_of c d after.0.tables.friends ≡ (
              if same_pair (c_str user) (c_str friend) c d
                || same_pair (c_str friend) (c_str user) c d
              then set_to 1 (status_of c d db.tables.friends)
              else status_of c d db.tables.friends))
  ack_add_friend-status_of = rw (ack_add_friend-healthy w db user friend healthy) (
    refl,
    IsHealthy-rotate _ db healthy,
    λ c d. status_of-accept_pair (c_str user) (c_str friend) c d db.tables.friends,
  )

  -- A rejection deletes the row of one direction only.
  pub remove_friend-status_of :
      let after = remove_friend e user friend db in
      (after.1 ≡ ok true)
      × IsHealthy after.0
      × ((c d : Bytes)
          → status_of c d after.0.tables.friends ≡ (
              if same_pair (c_str user) (c_str friend) c d
              then none
              else status_of c d db.tables.friends))
  remove_friend-status_of = rw (remove_friend-healthy w db user friend healthy) (
    refl,
    IsHealthy-rotate _ db healthy,
    λ c d. status_of-delete_pair (c_str user) (c_str friend) c d db.tables.friends,
  )

-- The calls that the handler makes for requests and acceptances.
pub data Befriend : Type 0 where
  asks accepts : Bytes → Bytes → Befriend

befriend : Engine → Db → Befriend → Db
befriend e db (asks a b) = (add_friend e a b db).0
befriend e db (accepts a b) = (ack_add_friend e a b db).0

unfoldable pub befriend_all : Engine → Db → List Befriend → Db
unfolding befriend
befriend_all e db [] = db
befriend_all e db (c ∷ cs) = befriend_all e (befriend e db c) cs

pub record IsPaired (db : Db) : Type 0 where
  pub healthy : IsHealthy db
  pub symmetric : IsSymmetric db.tables.friends

befriend-IsPaired :
    {e : Engine} (w : Works e) (db : Db) (c : Befriend) → IsPaired db → IsPaired (befriend e db c)
unfolding befriend
befriend-IsPaired w db (asks a b) h =
    subst IsPaired
      (ap (λ (r : Db × Result Bool). r.0) (sym (add_friend-healthy w db a b h.healthy)))
      record {
        healthy = IsHealthy-rotate _ db h.healthy;
        symmetric = both_ways-IsSymmetric (c_str a) (c_str b) _ h.symmetric;
      }
befriend-IsPaired w db (accepts a b) h =
    subst IsPaired
      (ap (λ (r : Db × Result Bool). r.0) (sym (ack_add_friend-healthy w db a b h.healthy)))
      record {
        healthy = IsHealthy-rotate _ db h.healthy;
        symmetric = accept_pair-IsSymmetric (c_str a) (c_str b) _ h.symmetric;
      }

-- After any history of friend requests and acceptances the friends table has one status for both
-- directions of every pair and the pool is healthy, if both held before and the engine works.
pub befriend_all-IsPaired :
    {e : Engine} (w : Works e) (db : Db) (cs : List Befriend)
    → IsPaired db
    → IsPaired (befriend_all e db cs)
unfolding befriend_all
befriend_all-IsPaired w db [] h = h
befriend_all-IsPaired {e} w db (c ∷ cs) h =
    befriend_all-IsPaired w (befriend e db c) cs (befriend-IsPaired w db c h)

-- A rejection between two different users, of whom the second has a row for the first, leaves the
-- table asymmetric: the first direction has no row and the other keeps its row and its status. The
-- engine works and the pool is healthy.
pub remove_friend-not-IsSymmetric :
    {e : Engine} (w : Works e) (db : Db) (user friend : Bytes) (n : ℕ)
    → IsHealthy db
    → c_str user ≢ c_str friend
    → status_of (c_str friend) (c_str user) db.tables.friends ≡ some n
    → let fs = (remove_friend e user friend db).0.tables.friends in
      (status_of (c_str user) (c_str friend) fs ≡ none)
      × (status_of (c_str friend) (c_str user) fs ≡ some n)
      × (¬ IsSymmetric fs)
remove_friend-not-IsSymmetric w db user friend n h d r =
    let after = (remove_friend-status_of w db user friend h).2 in
    let a = c_str user in
    let b = c_str friend in
    let gone = after a b in
    let stays = after b a in
    (
      ground (arith, same_refl a, same_refl b),
      ground (arith, same_iff a b),
      λ s. ground (arith, same_refl a, same_refl b, same_iff a b, s a b),
    )
