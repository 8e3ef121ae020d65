-- ===== src/Handler/Sessions.antt =====
-- The map from users to sessions: laws of its operations, and its keys.
use tiny_im.Prelude.{
  Bool-cases, subst, inl, inr, ◌≡◌, refl, ◌∙◌, Bool, false, List, [], ◌∷◌, none, some, arith,
  if◌then◌else◌, select,
}
use tiny_im.Prelude.Int.{ℤ, same_int, same_int_iff}
use tiny_im.Handler.State.{SessionId, find, erase, insert}

abbrev pub SessionMap : Type 0
SessionMap = List (ℤ × SessionId)

-- No key stands twice.
abbrev pub UniqueKeys : SessionMap → Type 0
UniqueKeys [] = Unit {0}
UniqueKeys ((k, v) ∷ m) = (find k m ≡ none) × UniqueKeys m

pub find-insert :
    (k j : ℤ) (v : SessionId) (m : SessionMap)
    → find j (insert k v m) ≡ (if same_int k j then some v else find j m)
unfolding find insert
find-insert k j v [] = refl
find-insert k j v ((i, u) ∷ m) =
    ground (arith, find-insert k j v m, same_int_iff i k, same_int_iff k j, same_int_iff i j)

pub find-erase :
    (k j : ℤ) (m : SessionMap) → find j (erase k m) ≡ (if same_int k j then none else find j m)
unfolding find erase
find-erase k j [] = ground arith
find-erase k j ((i, u) ∷ m) =
    ground (arith, find-erase k j m, same_int_iff i k, same_int_iff k j, same_int_iff i j)

find-select :
    (p : ℤ × SessionId → Bool) (k : ℤ) (m : SessionMap)
    → find k m ≡ none
    → find k (select p m) ≡ none
unfolding find
find-select p k [] h = refl
find-select p k ((i, u) ∷ m) h = ground (arith, find-select p k m)

pub select-UniqueKeys :
    (p : ℤ × SessionId → Bool) (m : SessionMap) → UniqueKeys m → UniqueKeys (select p m)
select-UniqueKeys p [] h = tt
select-UniqueKeys p ((k, v) ∷ m) h =
    ground (arith, select-UniqueKeys p m h.1, find-select p k m h.0)

insert-absent :
    (k i : ℤ) (v : SessionId) (m : SessionMap)
    → same_int i k ≡ false
    → find i m ≡ none
    → find i (insert k v m) ≡ none
insert-absent k i v m n h = find-insert k i v m ∙ ground (arith, same_int_iff k i, same_int_iff i k)

-- An assignment keeps the keys unique, whether or not the key was there.
pub insert-UniqueKeys :
    (k : ℤ) (v : SessionId) (m : SessionMap) → UniqueKeys m → UniqueKeys (insert k v m)
unfolding insert
insert-UniqueKeys k v [] u = (unfold find in refl, tt)
insert-UniqueKeys k v ((i, w) ∷ m) u = elim (Bool-cases (same_int i k)) [
  | inl y ↦ rw y (subst (λ j. find j m ≡ none) ((same_int_iff i k).0 y) u.0, u.1)
  | inr n ↦ rw n (insert-absent k i v m n u.0, insert-UniqueKeys k v m u.1)
]

pub erase-absent : (k : ℤ) (m : SessionMap) → find k m ≡ none → erase k m ≡ m
unfolding find erase
erase-absent k [] h = refl
erase-absent k ((j, v) ∷ m) h = ground (arith, erase-absent k m, same_int_iff j k)
