-- ===== src/Database/Credentials.antt =====
-- `generateUUID`, `generateSalt` and `hashPassword`. The random sources and SHA256 are parameters.
pub mod Shape
use tiny_im.Prelude.{
  ℕ, zero, suc, ◌+◌, ◌-◌, ◌/◌, ◌%◌, ◌<◌, ◌≡◌, List, [], ◌∷◌, ◌++◌, Option, none, some, Bytes, codes,
  if◌then◌else◌, ltb, get_elem?,
}

-- The i-th number of the distribution over 0 to 8, and the i-th byte of RAND_bytes.
pub record Random : Type 0 where
  pub draw : ℕ → ℕ
  pub salt_byte : ℕ → ℕ

pub record InBounds (r : Random) : Type 0 where
  pub draw_lt : (i : ℕ) → r.draw i < 9
  pub salt_byte_lt : (i : ℕ) → r.salt_byte i < 256

abbrev chars : Bytes
chars = codes "123456789"

-- `result += chars[i]`.
append_char : Bytes → Option ℕ → Bytes
append_char result none = result
append_char result (some c) = result ++ c ∷ []

uuid_loop : Random → ℕ → ℕ → Bytes → Bytes
unfolding append_char
uuid_loop r zero i result = result
uuid_loop r (suc rounds) i result =
    uuid_loop r rounds (i + 1) (append_char result (get_elem? chars (r.draw i)))

unfoldable pub generate_uuid : Random → Bytes
unfolding uuid_loop
generate_uuid r = uuid_loop r 9 0 []

hex_digit : ℕ → ℕ
hex_digit n = if ltb n 10 then b'0' + n else b'a' + (n - 10)

-- `std::hex << std::setw(2) << std::setfill('0')` of a byte.
hex_byte : ℕ → Bytes
unfolding hex_digit
hex_byte n = hex_digit (n / 16) ∷ hex_digit (n % 16) ∷ []

unfoldable pub hex : List ℕ → Bytes
unfolding hex_byte
hex [] = []
hex (n ∷ ns) = hex_byte n ++ hex ns

salt_bytes : Random → ℕ → ℕ → List ℕ
salt_bytes r zero i = []
salt_bytes r (suc rounds) i = r.salt_byte i ∷ salt_bytes r rounds (i + 1)

unfoldable pub generate_salt : Random → Bytes
unfolding salt_bytes hex
generate_salt r = hex (salt_bytes r 16 0)

-- SHA256: 32 bytes for every text.
unfoldable pub hash_password : (Bytes → Bytes) → Bytes → Bytes → Bytes
unfolding hex
hash_password sha256 password salt = hex (sha256 (password ++ salt))
