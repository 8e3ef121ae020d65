-- ===== src/Decimal/RoundTrip.antt =====
-- The trip of an id through its text.
use tiny_im.Prelude.{
  ℕ, zero, suc, ◌+◌, ◌/◌, ◌%◌, ◌≤◌, ◌<◌, ◌≡◌, ap, sym, ◌∙◌, true, [], ◌∷◌, some, arith, Bytes, All,
  NoNul, c_str, c_str_id,
}
use tiny_im.Prelude.Int.{ℤ, pos, negsuc, int_max, IsInt}
use tiny_im.Decimal.{digits, print_ℕ, to_string, scan, starts_digit, stoi}

abbrev pub IsDigit : ℕ → Type 0
IsDigit c = (b'0' ≤ c) × (c ≤ b'9')

scan-digits : (f n : ℕ) (out : Bytes) → n < f → scan (digits f n out) 0 ≡ scan out n
unfolding digits scan
scan-digits zero n out h = elim h [ ]
scan-digits (suc f) n out h = ground (arith, scan-digits f (n / 10) ((b'0' + n % 10) ∷ out))

digits-starts_digit :
    (f n : ℕ) (out : Bytes) → starts_digit out ≡ true → starts_digit (digits f n out) ≡ true
unfolding digits starts_digit
digits-starts_digit zero n out h = h
digits-starts_digit (suc f) n out h =
    ground (arith, digits-starts_digit f (n / 10) ((b'0' + n % 10) ∷ out))

digits-IsDigit : (f n : ℕ) (out : Bytes) → All IsDigit out → All IsDigit (digits f n out)
unfolding digits
digits-IsDigit zero n out h = h
digits-IsDigit (suc f) n out h = ground (arith, digits-IsDigit f (n / 10) ((b'0' + n % 10) ∷ out))

scan-print_ℕ : (n : ℕ) → scan (print_ℕ n) 0 ≡ n
unfolding print_ℕ scan
scan-print_ℕ n = scan-digits (suc n) n [] (omega arith)

pub print_ℕ-starts_digit : (n : ℕ) → starts_digit (print_ℕ n) ≡ true
unfolding print_ℕ digits starts_digit
print_ℕ-starts_digit n = ground (arith, digits-starts_digit n (n / 10) ((b'0' + n % 10) ∷ []))

pub stoi-digit :
    (s : Bytes) → starts_digit s ≡ true → scan s 0 ≤ int_max → stoi s ≡ some (pos (scan s 0))
unfolding stoi starts_digit
stoi-digit [] h b = cc
stoi-digit (c ∷ s) h b = ground arith

stoi-minus :
    (s : Bytes) (n : ℕ)
    → starts_digit s ≡ true
    → scan s 0 ≡ suc n
    → n ≤ int_max
    → stoi (b'-' ∷ s) ≡ some (negsuc n)
unfolding stoi
stoi-minus s n h e b = ground arith

-- Every int is read back from its print.
pub stoi-to_string : (i : ℤ) → IsInt i → stoi (to_string i) ≡ some i
unfolding to_string
stoi-to_string (pos n) h =
    stoi-digit (print_ℕ n) (print_ℕ-starts_digit n) (rw (scan-print_ℕ n) h)
    ∙ ap (λ k. some (pos k)) (scan-print_ℕ n)
stoi-to_string (negsuc n) h =
    stoi-minus (print_ℕ (suc n)) n (print_ℕ-starts_digit (suc n)) (scan-print_ℕ (suc n)) h

pub digit-NoNul : (s : Bytes) → All IsDigit s → NoNul s
digit-NoNul [] h = tt
digit-NoNul (c ∷ s) h = ground (arith, digit-NoNul s h.1)

to_string-NoNul : (i : ℤ) → NoNul (to_string i)
unfolding to_string print_ℕ
to_string-NoNul (pos n) = digit-NoNul _ (digits-IsDigit (suc n) n [] tt)
to_string-NoNul (negsuc n) =
    ((omega arith), digit-NoNul _ (digits-IsDigit (suc (suc n)) (suc n) [] tt))

-- So the text that is bound to a statement is the whole print.
pub c_str-to_string : (i : ℤ) → c_str (to_string i) ≡ to_string i
c_str-to_string i = c_str_id _ (to_string-NoNul i)

-- Different ids have different texts, whatever their size.
pub print_ℕ-injective : (m n : ℕ) → print_ℕ m ≡ print_ℕ n → m ≡ n
print_ℕ-injective m n e = sym (scan-print_ℕ m) ∙ ap (λ s. scan s 0) e ∙ scan-print_ℕ n

pub to_string-injective : (a b : ℤ) → to_string a ≡ to_string b → IsInt a → IsInt b → a ≡ b
to_string-injective a b e ha hb = cc (stoi-to_string a ha, stoi-to_string b hb)
