-- ===== src/Prelude/Perms.antt =====
-- The library's permutations, measured by native numbers, and permutations of short lists.
use mathlib.Core.List
use mathlib.Core.List.{Perm, mem-cons, not-mem-nil, mem-cons_self}
use mathlib.Core.List.Perm
use mathlib.Core.Logic.Or
use native.Mathlib.Bridge.{from_ℕ}
use tiny_im.Prelude.{
  suc, ◌≡◌, refl, ap, sym, ◌∙◌, List, [], ◌∷◌, length, arith, Bool, true, false, Option, none, some,
  if◌then◌else◌, select,
}

module _ {ℓ} {A : Type ℓ} where
  length-from_ℕ : (xs : List A) → length xs ≡ from_ℕ (List.length xs)
  length-from_ℕ [] = refl
  length-from_ℕ (x ∷ xs) = ap suc (length-from_ℕ xs)

  pub length-perm : {xs ys : List A} → Perm xs ys → length xs ≡ length ys
  length-perm {xs} {ys} p = length-from_ℕ xs ∙ ap from_ℕ (Perm.length-eq p) ∙ sym (length-from_ℕ ys)

  pub perm_one : IsSet A → (l : List A) (a : A) → Perm l (a ∷ []) → l ≡ a ∷ []
  perm_one s [] a p = absurd (omega (arith, length-perm p))
  perm_one s (x ∷ []) a p =
      ap (λ b. b ∷ [])
        (Or.elim (s x a) (mem-cons.0 ((Perm.mem_iff p).0 mem-cons_self)) (λ e. e)
          (λ m. absurd (not-mem-nil m)))
  perm_one s (x ∷ y ∷ l) a p = absurd (omega (arith, length-perm p))

  abbrev keep : (A → Bool) → A → Option A
  keep p x = if p x then some x else none

  select-filter_map : (p : A → Bool) (xs : List A) → List.filter_map (keep p) xs ≡ select p xs
  unfolding List.filter_map
  select-filter_map p [] = refl
  select-filter_map p (x ∷ xs) = ground (arith, select-filter_map p xs)

  pub perm_select : (p : A → Bool) {xs ys : List A} → Perm xs ys → Perm (select p xs) (select p ys)
  perm_select p {xs} {ys} h =
      rw (sym (select-filter_map p xs), sym (select-filter_map p ys)) (Perm.filter_map (keep p) h)

  -- A list that is a permutation of at most one element is that list.
  pub perm_if :
      IsSet A
      → (l : List A) (a : A) (b : Bool) → Perm l (if b then a ∷ [] else [])
      → l ≡ (if b then a ∷ [] else [])
  perm_if s l a true p = perm_one s l a p
  perm_if s l a false p = Perm.eq-nil p
