-- ===== src/Database/Credentials/Shape.antt =====
-- The shape of generated ids, salts and hashes.
use tiny_im.Prelude.{
  ℕ, ◌+◌, ◌*◌, ◌/◌, ◌%◌, ◌<◌, ◌≡◌, ◌≢◌, refl, List, [], ◌∷◌, ◌++◌, some, arith, Bytes, All, length,
  get_elem?, NoNul, c_str, c_str_id,
}
use tiny_im.Decimal.RoundTrip.{IsDigit, digit-NoNul}
use tiny_im.Decimal.Canonical.{IsId, digits-IsId}
use tiny_im.Database.Credentials.{
  Random, InBounds, chars, append_char, uuid_loop, generate_uuid, hex_digit, hex, salt_bytes,
  generate_salt, hash_password,
}

get_elem?-chars : (n : ℕ) → n < 9 → get_elem? chars n ≡ some (b'1' + n)
get_elem?-chars n h = ground arith

generate_uuid-eq :
    (r : Random)
    → InBounds r
    → generate_uuid r
      ≡ (b'1' + r.draw 0)
        ∷ (b'1' + r.draw 1)
        ∷ (b'1' + r.draw 2)
        ∷ (b'1' + r.draw 3)
        ∷ (b'1' + r.draw 4)
        ∷ (b'1' + r.draw 5)
        ∷ (b'1' + r.draw 6)
        ∷ (b'1' + r.draw 7)
        ∷ (b'1' + r.draw 8)
        ∷ []
unfolding generate_uuid uuid_loop append_char
generate_uuid-eq r b =
    let at = λ (i : ℕ). get_elem?-chars (r.draw i) (b.draw_lt i) in
    rw (at 0, at 1, at 2, at 3, at 4, at 5, at 6, at 7, at 8) refl

digits_in_range :
    (r : Random)
    → InBounds r
    → All IsDigit (
        (b'1' + r.draw 0)
        ∷ (b'1' + r.draw 1)
        ∷ (b'1' + r.draw 2)
        ∷ (b'1' + r.draw 3)
        ∷ (b'1' + r.draw 4)
        ∷ (b'1' + r.draw 5)
        ∷ (b'1' + r.draw 6)
        ∷ (b'1' + r.draw 7)
        ∷ (b'1' + r.draw 8)
        ∷ [])
digits_in_range r b =
    let at = b.draw_lt in omega (arith, at 0, at 1, at 2, at 3, at 4, at 5, at 6, at 7, at 8)

-- A generated id has nine characters, and stoi reads it as an int whose print is the id again, if
-- the random draws are in their bounds.
pub generate_uuid-IsId :
    (r : Random) → InBounds r → IsId (generate_uuid r) × (length (generate_uuid r) ≡ 9)
generate_uuid-IsId r b =
    rw (generate_uuid-eq r b)
      (digits-IsId _ _ (digits_in_range r b) (omega arith) (omega arith), refl)

digits_lem : (r : Random) → InBounds r → All IsDigit (generate_uuid r)
digits_lem r b = rw (generate_uuid-eq r b) (digits_in_range r b)

pub c_str-generate_uuid : (r : Random) → InBounds r → c_str (generate_uuid r) ≡ generate_uuid r
c_str-generate_uuid r b = c_str_id _ (digit-NoNul _ (digits_lem r b))

abbrev AllBytes : List ℕ → Type 0
AllBytes = All (λ n. n < 256)

pub length-hex : (ns : List ℕ) → length (hex ns) ≡ 2 * length ns
unfolding hex
length-hex [] = refl
length-hex (n ∷ ns) = omega (arith, length-hex ns)

hex_digit-ne_zero : (n : ℕ) → hex_digit n ≢ 0
unfolding hex_digit
hex_digit-ne_zero n = ground arith

pub hex-NoNul : (ns : List ℕ) → NoNul (hex ns)
unfolding hex
hex-NoNul [] = tt
hex-NoNul (n ∷ ns) = (hex_digit-ne_zero (n / 16), (hex_digit-ne_zero (n % 16), hex-NoNul ns))

hex_digit-injective : (m n : ℕ) → m < 16 → n < 16 → hex_digit m ≡ hex_digit n → m ≡ n
unfolding hex_digit
hex_digit-injective m n h k e = ground arith

-- Different byte strings have different prints.
pub hex-injective : (ms ns : List ℕ) → AllBytes ms → AllBytes ns → hex ms ≡ hex ns → ms ≡ ns
unfolding hex
hex-injective [] [] a b e = refl
hex-injective [] (n ∷ ns) a b e = cc
hex-injective (m ∷ ms) [] a b e = cc
hex-injective (m ∷ ms) (n ∷ ns) a b e = ground (
  arith,
  hex-injective ms ns a.1 b.1,
  hex_digit-injective (m / 16) (n / 16),
  hex_digit-injective (m % 16) (n % 16),
)

-- A salt is 32 characters.
pub length-generate_salt : (r : Random) → length (generate_salt r) ≡ 32
unfolding generate_salt salt_bytes
length-generate_salt r = rw length-hex

pub c_str-generate_salt : (r : Random) → c_str (generate_salt r) ≡ generate_salt r
unfolding generate_salt
c_str-generate_salt r = c_str_id _ (hex-NoNul (salt_bytes r 16 0))

module _ (sha256 : Bytes → List ℕ) where
  pub c_str-hash_password :
      (password salt : Bytes)
      → c_str (hash_password sha256 password salt) ≡ hash_password sha256 password salt
  unfolding hash_password
  c_str-hash_password password salt = c_str_id _ (hex-NoNul (sha256 (password ++ salt)))

  -- Two passwords have one stored hash under a salt only if SHA256 collides on the salted texts.
  pub hash_password-injective :
      (password password' salt : Bytes)
      → AllBytes (sha256 (password ++ salt))
      → AllBytes (sha256 (password' ++ salt))
      → hash_password sha256 password salt ≡ hash_password sha256 password' salt
      → sha256 (password ++ salt) ≡ sha256 (password' ++ salt)
  unfolding hash_password
  hash_password-injective password password' salt a b = hex-injective _ _ a b
