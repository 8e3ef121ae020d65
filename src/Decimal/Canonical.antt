-- ===== src/Decimal/Canonical.antt =====
-- Texts of digits and the numbers that they spell.
use native.Mathlib.Nat.{pow-suc, zero-add, mul-le-mul_right, pow-le-pow_right}
use tiny_im.Prelude.{
  ℕ, zero, suc, ◌+◌, ◌-◌, ◌*◌, ◌/◌, ◌%◌, ◌^◌, ◌≤◌, ◌<◌, ◌≡◌, ◌∙◌, [], ◌∷◌, ◌++◌, append-nil, some,
  arith, Bytes, All, length,
}
use tiny_im.Prelude.Int.{pos, int_max}
use tiny_im.Decimal.{digits, print_ℕ, to_string, scan, starts_digit, stoi}
use tiny_im.Decimal.RoundTrip.{IsDigit, stoi-digit}

digits_fuel : (f g n : ℕ) (out : Bytes) → n < f → n < g → digits f n out ≡ digits g n out
unfolding digits
digits_fuel zero g n out h k = elim h [ ]
digits_fuel (suc f) zero n out h k = elim k [ ]
digits_fuel (suc f) (suc g) n out h k =
    ground (arith, digits_fuel f g (n / 10) ((b'0' + n % 10) ∷ out))

-- One more digit behind a positive number.
digits_push :
    (g v c : ℕ) (out : Bytes)
    → 0 < v
    → v < g
    → IsDigit c
    → digits (suc (v * 10 + (c - b'0'))) (v * 10 + (c - b'0')) out ≡ digits g v (c ∷ out)
digits_push g v c out h k d =
    let n = v * 10 + (c - b'0') in
    let q : n / 10 ≡ v = omega arith in
    let r : b'0' + n % 10 ≡ c = omega arith in
    unfold digits in ground (arith, q, r, digits_fuel n g v (c ∷ out) (omega arith) k)

scan_digit : (c : ℕ) (s : Bytes) (v : ℕ) → IsDigit c → scan (c ∷ s) v ≡ scan s (v * 10 + (c - b'0'))
unfolding scan
scan_digit c s v d = ground arith

digits-scan :
    (s : Bytes) (f g v : ℕ) (out : Bytes)
    → All IsDigit s
    → 0 < v
    → v < g
    → scan s v < f
    → digits f (scan s v) out ≡ digits g v (s ++ out)
digits-scan [] f g v out d h k l = unfold scan in digits_fuel f g v out l k
digits-scan (c ∷ s) f g v out d h k l =
    let n = v * 10 + (c - b'0') in
    let e : scan (c ∷ s) v ≡ scan s n = scan_digit c s v d.0 in
    rw e (digits-scan s f (suc n) n out d.1 (omega arith) (omega arith) (rw e at l))
    ∙ digits_push g v c (s ++ out) h k d.0

mul_step : (v d k m : ℕ) → d ≤ 9 → m < (v * 10 + d + 1) * k → m < (v + 1) * (k * 10)
mul_step v d k m h l =
    let more : (v * 10 + d + 1) * k ≤ ((v + 1) * 10) * k = mul-le-mul_right k (omega arith) in
    omega arith

scan-lt : (s : Bytes) (v : ℕ) → All IsDigit s → scan s v < (v + 1) * 10 ^ length s
scan-lt [] v d = unfold scan in omega arith
scan-lt (c ∷ s) v d =
    let ih = scan-lt s (v * 10 + (c - b'0')) d.1 in
    rw (scan_digit c s v d.0, pow-suc)
      (mul_step v (c - b'0') (10 ^ length s) (scan s (v * 10 + (c - b'0'))) (omega arith) ih)

one_digit : (v c : ℕ) (s : Bytes) → v < 10 → b'0' + v ≡ c → digits (suc v) v s ≡ c ∷ s
unfolding digits
one_digit v c s h e = ground arith

-- A first digit that is no zero, and more digits: the value is printed as this text.
print_ℕ-scan :
    (c : ℕ) (s : Bytes) → All IsDigit (c ∷ s) → b'0' < c → print_ℕ (scan (c ∷ s) 0) ≡ c ∷ s
unfolding print_ℕ
print_ℕ-scan c s d h =
    let v = c - b'0' in
    let n = scan s v in
    rw (scan_digit c s 0 d.0, zero-add)
      (digits-scan s (suc n) (suc v) v [] d.1 (omega arith) (omega arith) (omega arith)
        ∙ rw append-nil (one_digit v c s (omega arith) (omega arith)))

scan-le-int_max :
    (c : ℕ) (s : Bytes) → All IsDigit (c ∷ s) → length s ≤ 8 → scan (c ∷ s) 0 ≤ int_max
scan-le-int_max c s d l =
    let bound = scan-lt (c ∷ s) 0 d in
    let power : 10 ^ length (c ∷ s) ≤ 10 ^ 9 =
      pow-le-pow_right (omega arith) {j = 9} (omega arith) in
    omega arith

-- An id text: its first digit is not zero, and its value fits an int.
pub record IsId (s : Bytes) : Type 0 where
  pub value : ℕ
  pub value_fits : value ≤ int_max
  pub reads : stoi s ≡ some (pos value)
  pub prints : to_string (pos value) ≡ s

-- Up to nine digits, the first of them not zero, are an id text.
pub digits-IsId : (c : ℕ) (s : Bytes) → All IsDigit (c ∷ s) → b'0' < c → length s ≤ 8 → IsId (c ∷ s)
unfolding to_string starts_digit
digits-IsId c s d h l = record {
  value = scan (c ∷ s) 0;
  value_fits = scan-le-int_max c s d l;
  reads = stoi-digit (c ∷ s) (ground arith) (scan-le-int_max c s d l);
  prints = print_ℕ-scan c s d h;
}
