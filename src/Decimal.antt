-- ===== src/Decimal.antt =====
-- `std::to_string(int)` and `std::stoi`, which Database.cpp and BusinessHandler.cpp use to carry an
-- id between the messages (an int) and the tables (a text).
pub mod RoundTrip
pub mod Canonical
use tiny_im.Prelude.{
  ℕ, zero, suc, ◌+◌, ◌-◌, ◌*◌, ◌/◌, ◌%◌, ◌≤◌, ◌<◌, ◌≡◌, refl, Bool, true, false, ◌||◌, ◌&&◌, List,
  [], ◌∷◌, ◌++◌, Option, none, some, arith, ltb, leb, ◌==◌, if◌then◌else◌, Bytes, codes,
}
use tiny_im.Prelude.Int.{ℤ, pos, negsuc, int_max}

-- The digits of a number, the most significant first. The fuel is the number itself: a round
-- divides by ten, so it never runs out.
pub digits : ℕ → ℕ → Bytes → Bytes
digits zero n out = out
digits (suc f) n out =
    let more = digits f (n / 10) ((b'0' + n % 10) ∷ out) in
    if n / 10 == 0 then (b'0' + n % 10) ∷ out else more

pub print_ℕ : ℕ → Bytes
unfolding digits
print_ℕ n = digits (suc n) n []

unfoldable pub to_string : ℤ → Bytes
unfolding print_ℕ
to_string (pos n) = print_ℕ n
to_string (negsuc n) = b'-' ∷ print_ℕ (suc n)

-- The value of the leading digits, and whether there is one.
pub scan : Bytes → ℕ → ℕ
scan [] n = n
scan (c ∷ s) n = if ltb c b'0' || ltb b'9' c then n else scan s (n * 10 + (c - b'0'))

pub starts_digit : Bytes → Bool
starts_digit [] = false
starts_digit (c ∷ s) = leb b'0' c && leb c b'9'

is_blank : ℕ → Bool
is_blank c = c == b' ' || (leb 9 c && leb c 13)

skip_blanks : Bytes → Bytes
unfolding is_blank
skip_blanks [] = []
skip_blanks (c ∷ s) = if is_blank c then skip_blanks s else c ∷ s

-- The digits behind the sign; `limit` is the largest magnitude that an int of that sign has.
magnitude : ℕ → Bytes → Option ℕ
unfolding scan starts_digit
magnitude limit s = if starts_digit s && leb (scan s 0) limit then some (scan s 0) else none

minus : Option ℕ → Option ℤ
minus none = none
minus (some zero) = some (pos 0)
minus (some (suc n)) = some (negsuc n)

plus : Option ℕ → Option ℤ
plus none = none
plus (some n) = some (pos n)

signed : Bytes → Option ℤ
unfolding magnitude minus plus
signed [] = none
signed (c ∷ s) =
    if c == b'-'
    then minus (magnitude (int_max + 1) s)
    else if c == b'+'
    then plus (magnitude int_max s)
    else plus (magnitude int_max (c ∷ s))

-- `none` stands for the exceptions std::invalid_argument and std::out_of_range.
unfoldable pub stoi : Bytes → Option ℤ
unfolding skip_blanks signed
stoi s = signed (skip_blanks s)

to_string_minus : to_string (negsuc 2147483647) ≡ codes "-2147483648"
unfolding to_string
to_string_minus = refl

stoi_range : (stoi (codes "2147483648") ≡ none) × (stoi (codes " -12x") ≡ some (negsuc 11))
unfolding stoi
stoi_range = (refl, refl)
