-- ===== src/Database/Contract/Pairs.antt =====
-- The friends table under the writes of the contract.
use tiny_im.Prelude.{
  ℕ, ◌≡◌, refl, ap, ◌∙◌, Bool, true, false, ◌||◌, List, [], ◌∷◌, map, Option, none, some, arith,
  Bytes, same, same_iff, if◌then◌else◌, ◌==◌, select, select-append, exists, Option-cases, inl, inr,
}
use tiny_im.Database.Schema.{Friend}
use tiny_im.Database.Friends.{is_pair, insert_or_ignore, accept_pair, accept, delete_pair, accepted}
use tiny_im.Database.Friends.Rows.{same_pair, or_else, set_to}
use tiny_im.Database.Friends.Calls.{both_ways}
use tiny_im.Database.Contract.{is_accepted, Tells, rows_of_pair}

abbrev some_pair : List Friend → Bool
some_pair [] = false
some_pair (f ∷ fs) = true

exists-is_pair :
    (a b : Bytes) (fs : List Friend) → exists (is_pair a b) fs ≡ some_pair (select (is_pair a b) fs)
exists-is_pair a b [] = refl
exists-is_pair a b (f ∷ fs) = ground (arith, exists-is_pair a b fs)

abbrev requested : Bytes → Bytes → (Bytes → Bytes → Option ℕ) → Bytes → Bytes → Option ℕ
requested a b status c d = if same_pair a b c d then or_else (status a b) (some 0) else status c d

insert_or_ignore-Tells :
    (a b : Bytes) (fs : List Friend) (status : Bytes → Bytes → Option ℕ)
    → Tells fs status
    → Tells (insert_or_ignore a b fs) (requested a b status)
unfolding insert_or_ignore
insert_or_ignore-Tells a b fs status h c d = elim (Option-cases (status a b)) [
  | inl n ↦ ground (
    arith,
    n,
    exists-is_pair a b fs,
    h a b,
    h c d,
    same_iff a c,
    same_iff b d,
    select-append (is_pair c d) fs (record { user_id = a; friend_id = b; status = 0 } ∷ []),
  )
  | inr (x, p) ↦ ground (arith, p, exists-is_pair a b fs, h a b, h c d, same_iff a c, same_iff b d)
]

pub both_ways-Tells :
    (a b : Bytes) (fs : List Friend) (status : Bytes → Bytes → Option ℕ)
    → Tells fs status
    → Tells (both_ways a b fs) (λ c d.
      if same_pair a b c d || same_pair b a c d then or_else (status c d) (some 0) else status c d)
both_ways-Tells a b fs status h c d =
    insert_or_ignore-Tells b a (insert_or_ignore a b fs) (requested a b status)
      (insert_or_ignore-Tells a b fs status h) c d
    ∙ ap (rows_of_pair c d) (
        ground (
          arith,
          same_iff a c,
          same_iff b d,
          same_iff b c,
          same_iff a d,
          same_iff a b,
          same_iff b a,
        ))

select-accept :
    (a b c d : Bytes) (fs : List Friend)
    → select (is_pair c d) (map (accept a b) fs) ≡ map (accept a b) (select (is_pair c d) fs)
unfolding accept
select-accept a b c d [] = refl
select-accept a b c d (f ∷ fs) = ground (arith, select-accept a b c d fs)

accept-rows_of_pair :
    (a b c d : Bytes) (o : Option ℕ)
    → map (accept a b) (rows_of_pair c d o)
      ≡ rows_of_pair c d (if same_pair a b c d || same_pair b a c d then set_to 1 o else o)
unfolding accept
accept-rows_of_pair a b c d none = ground arith
accept-rows_of_pair a b c d (some n) = ground (
  arith,
  same_iff a c,
  same_iff b d,
  same_iff b c,
  same_iff a d,
  same_iff c a,
  same_iff d b,
  same_iff c b,
  same_iff d a,
)

pub accept_pair-Tells :
    (a b : Bytes) (fs : List Friend) (status : Bytes → Bytes → Option ℕ)
    → Tells fs status
    → Tells (accept_pair a b fs) (λ c d.
      if same_pair a b c d || same_pair b a c d then set_to 1 (status c d) else status c d)
unfolding accept_pair
accept_pair-Tells a b fs status h c d =
    select-accept a b c d fs
    ∙ ap (map (accept a b)) (h c d)
    ∙ accept-rows_of_pair a b c d (status c d)

select-delete_pair :
    (a b c d : Bytes) (fs : List Friend)
    → select (is_pair c d) (delete_pair a b fs)
      ≡ (if same_pair a b c d then [] else select (is_pair c d) fs)
unfolding delete_pair
select-delete_pair a b c d [] = ground arith
select-delete_pair a b c d (f ∷ fs) = ground (
  arith,
  select-delete_pair a b c d fs,
  same_iff a c,
  same_iff b d,
  same_iff f.user_id a,
  same_iff f.user_id c,
  same_iff f.friend_id b,
  same_iff f.friend_id d,
)

pub delete_pair-Tells :
    (a b : Bytes) (fs : List Friend) (status : Bytes → Bytes → Option ℕ)
    → Tells fs status
    → Tells (delete_pair a b fs) (λ c d. if same_pair a b c d then none else status c d)
delete_pair-Tells a b fs status h c d = ground (arith, select-delete_pair a b c d fs, h c d)

select-friend_id :
    (id x : Bytes) (fs : List Friend)
    → select (same x) (map (λ (f : Friend). f.friend_id) (select (accepted id) fs))
      ≡ map
          (λ (f : Friend). f.friend_id)
          (select (λ (f : Friend). f.status == 1) (select (is_pair id x) fs))
select-friend_id id x [] = refl
select-friend_id id x (f ∷ fs) =
    ground (arith, select-friend_id id x fs, same_iff x f.friend_id, same_iff f.friend_id x)

accepted-rows_of_pair :
    (id x : Bytes) (o : Option ℕ)
    → map
        (λ (f : Friend). f.friend_id)
        (select (λ (f : Friend). f.status == 1) (rows_of_pair id x o))
      ≡ (if is_accepted o then x ∷ [] else [])
accepted-rows_of_pair id x none = refl
accepted-rows_of_pair id x (some n) = ground arith

-- Each id is listed once or never.
pub select-accepted :
    (id x : Bytes) (fs : List Friend) (status : Bytes → Bytes → Option ℕ)
    → Tells fs status
    → select (same x) (map (λ (f : Friend). f.friend_id) (select (accepted id) fs))
      ≡ (if is_accepted (status id x) then x ∷ [] else [])
select-accepted id x fs status h =
    select-friend_id id x fs
    ∙ ap (λ l. map (λ (f : Friend). f.friend_id) (select (λ (f : Friend). f.status == 1) l))
        (h id x)
    ∙ accepted-rows_of_pair id x (status id x)
