-- ===== src/Utils/Stats.antt =====
-- inc/Utils.h: `printProcessStats`, as far as what it reads of its file.
pub mod Guard
use tiny_im.Prelude.{
  ℕ, Bool, List, [], ◌∷◌, Option, none, some, if◌then◌else◌, ◌==◌, ltb, length, get_elem?, Bytes,
}
use tiny_im.Prelude.Int.{ℤ}
use tiny_im.Utils.{split}

-- How the function ends: the file cannot be opened, the guard refuses its line, a token is read
-- beyond the end of the vector, `stol` throws, or the values are logged.
pub data Stats : Type 0 where
  unopened : Stats
  unexpected : Stats
  out_of_range : Stats
  no_number : Stats
  shown : Bytes → ℤ → ℤ → ℤ → ℤ → Stats

-- `std::getline` up to the first line break.
unfoldable pub first_line : Bytes → Bytes
first_line [] = []
first_line (c ∷ s) = if c == 10 then [] else c ∷ first_line s

-- `tokens[i]`, and what is done with the token.
with_token : List Bytes → ℕ → (Bytes → Stats) → Stats
with_token tokens i next = elim (get_elem? tokens i) [ none ↦ out_of_range | some t ↦ next t ]

-- `stol` is the library's: `none` is an exception.
with_number : (Bytes → Option ℤ) → List Bytes → ℕ → (ℤ → Stats) → Stats
unfolding with_token
with_number stol tokens i next =
    with_token tokens i (λ t. elim (stol t) [ none ↦ no_number | some v ↦ next v ])

read_tokens : (Bytes → Option ℤ) → List Bytes → Stats
unfolding with_token with_number
read_tokens stol tokens = with_token tokens 1 (λ name. with_number stol tokens 13 (λ utime.
    with_number stol tokens 14 (λ stime.
      with_number stol tokens 22
        (λ vsize. with_number stol tokens 23 (λ rss. shown name utime stime vsize rss)))))

stats_of : (Bytes → Option ℤ) → List Bytes → Stats
unfolding read_tokens
stats_of stol tokens = if ltb (length tokens) 22 then unexpected else read_tokens stol tokens

unfoldable pub print_process_stats : (Bytes → Option ℤ) → Option Bytes → Stats
unfolding stats_of first_line
print_process_stats stol none = unopened
print_process_stats stol (some file) = stats_of stol (split (first_line file) 32)
