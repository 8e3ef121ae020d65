-- ===== src/Prelude/Int.antt =====
-- C++ `int`: signed integers over the native numbers, with the 32-bit range and its wrap-around.
use tiny_im.Prelude.{
  ℕ, zero, suc, ◌+◌, ◌≤◌, ◌≡◌, ◌↔◌, Bool, true, false, arith, ltb, ◌==◌, if◌then◌else◌, refl,
}

-- `negsuc n` is -(n + 1).
pub data ℤ : Type 0 where
  pos : ℕ → ℤ
  negsuc : ℕ → ℤ

abbrev pub int_max : ℕ
int_max = 2147483647

-- The values of an `int`: -2147483648 to 2147483647.
abbrev pub IsInt : ℤ → Type 0
IsInt (pos n) = n ≤ int_max
IsInt (negsuc n) = n ≤ int_max

unfoldable pub same_int : ℤ → ℤ → Bool
same_int (pos a) (pos b) = a == b
same_int (negsuc a) (negsuc b) = a == b
same_int (pos a) (negsuc b) = false
same_int (negsuc a) (pos b) = false

pub same_int_iff : (a b : ℤ) → (same_int a b ≡ true) ↔ (a ≡ b)
unfolding same_int
same_int_iff a b = ground arith

pub same_int_refl : (a : ℤ) → same_int a a ≡ true
same_int_refl a = (same_int_iff a a).1 refl

-- `x + 1` on an int. At the largest value the sum wraps around, as two's complement does.
unfoldable pub next_int : ℤ → ℤ
next_int (pos n) = if ltb n int_max then pos (n + 1) else negsuc int_max
next_int (negsuc zero) = pos 0
next_int (negsuc (suc n)) = negsuc n

pub next_int-IsInt : (i : ℤ) → IsInt i → IsInt (next_int i)
unfolding next_int
next_int-IsInt (pos n) h = ground arith
next_int-IsInt (negsuc zero) h = omega arith
next_int-IsInt (negsuc (suc n)) h = omega arith
