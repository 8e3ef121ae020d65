-- ===== src/Database/Friends/Rows.antt =====
-- What the three writing statements of the friends table do, as laws of a lookup in that table.
use tiny_im.Prelude.{
  ℕ, ◌≡◌, refl, Bool, true, false, ◌&&◌, ◌||◌, List, [], ◌∷◌, ◌++◌, Option, none, some,
  if◌then◌else◌, arith, Bytes, same, same_iff, exists,
}
use tiny_im.Database.Schema.{Friend}
use tiny_im.Database.Friends.{is_pair, insert_or_ignore, accept_pair, accept, delete_pair}

-- The status of the row of a pair.
unfoldable pub status_of : Bytes → Bytes → List Friend → Option ℕ
status_of a b [] = none
status_of a b (f ∷ fs) = if is_pair a b f then some f.status else status_of a b fs

abbrev pub same_pair : Bytes → Bytes → Bytes → Bytes → Bool
same_pair a b c d = same a c && same b d

abbrev pub or_else : Option ℕ → Option ℕ → Option ℕ
or_else none y = y
or_else (some x) y = some x

abbrev pub set_to : ℕ → Option ℕ → Option ℕ
set_to n none = none
set_to n (some x) = some n

abbrev is_some : Option ℕ → Bool
is_some none = false
is_some (some x) = true

pub status_of-append :
    (a b : Bytes) (fs gs : List Friend)
    → status_of a b (fs ++ gs) ≡ or_else (status_of a b fs) (status_of a b gs)
unfolding status_of
status_of-append a b [] gs = refl
status_of-append a b (f ∷ fs) gs = ground (arith, status_of-append a b fs gs)

exists-status_of :
    (a b : Bytes) (fs : List Friend) → exists (is_pair a b) fs ≡ is_some (status_of a b fs)
unfolding status_of
exists-status_of a b [] = refl
exists-status_of a b (f ∷ fs) = ground (arith, exists-status_of a b fs)

-- The row of the inserted pair keeps its status if it was there, and all others are as before.
pub status_of-insert_or_ignore :
    (a b c d : Bytes) (fs : List Friend)
    → status_of c d (insert_or_ignore a b fs)
      ≡ (if same_pair a b c d then or_else (status_of a b fs) (some 0) else status_of c d fs)
unfolding insert_or_ignore status_of
status_of-insert_or_ignore a b c d fs = ground (
  arith,
  exists-status_of a b fs,
  same_iff a c,
  same_iff b d,
  status_of-append c d fs (record { user_id = a; friend_id = b; status = 0 } ∷ []),
)

pub status_of-accept_pair :
    (a b c d : Bytes) (fs : List Friend)
    → status_of c d (accept_pair a b fs) ≡ (
        if same_pair a b c d || same_pair b a c d
        then set_to 1 (status_of c d fs)
        else status_of c d fs)
unfolding accept_pair accept status_of
status_of-accept_pair a b c d [] = ground arith
status_of-accept_pair a b c d (f ∷ fs) = ground (
  arith,
  status_of-accept_pair a b c d fs,
  same_iff a c,
  same_iff b d,
  same_iff b c,
  same_iff a d,
  same_iff f.user_id a,
  same_iff f.user_id b,
  same_iff f.user_id c,
  same_iff f.friend_id a,
  same_iff f.friend_id b,
  same_iff f.friend_id d,
)

pub status_of-delete_pair :
    (a b c d : Bytes) (fs : List Friend)
    → status_of c d (delete_pair a b fs) ≡ (if same_pair a b c d then none else status_of c d fs)
unfolding delete_pair status_of
status_of-delete_pair a b c d [] = ground arith
status_of-delete_pair a b c d (f ∷ fs) = ground (
  arith,
  status_of-delete_pair a b c d fs,
  same_iff a c,
  same_iff b d,
  same_iff f.user_id a,
  same_iff f.user_id c,
  same_iff f.friend_id b,
  same_iff f.friend_id d,
)
