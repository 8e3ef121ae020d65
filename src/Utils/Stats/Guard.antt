-- ===== src/Utils/Stats/Guard.antt =====
-- The guard of `printProcessStats` against what the function reads.
use tiny_im.Prelude.{
  ℕ, zero, suc, ◌≤◌, ◌<◌, ◌≡◌, refl, ap, ◌∙◌, List, [], ◌∷◌, Option, none, some, ltb, length,
  get_elem?, Bytes, arith, Bool-cases, inl, inr,
}
use tiny_im.Prelude.Int.{ℤ}
use tiny_im.Utils.{split}
use tiny_im.Utils.Stats.{
  Stats, unexpected, out_of_range, shown, first_line, with_token, with_number, read_tokens,
  stats_of, print_process_stats,
}

there :
    (tokens : List Bytes) (i : ℕ) → i < length tokens → (t : Bytes) × (get_elem? tokens i ≡ some t)
there [] i h = absurd (omega arith)
there (t ∷ tokens) zero h = (t, refl)
there (t ∷ tokens) (suc i) h = there tokens i (omega arith)

beyond : (tokens : List Bytes) (i : ℕ) → length tokens ≤ i → get_elem? tokens i ≡ none
beyond [] i h = refl
beyond (t ∷ tokens) zero h = absurd (omega arith)
beyond (t ∷ tokens) (suc i) h = beyond tokens i (omega arith)

-- The fields after the name and the state of the process are numbers.
abbrev pub Numeric : (Bytes → Option ℤ) → List Bytes → Type 0
Numeric stol tokens =
    (i : ℕ) (t : Bytes) → 3 ≤ i → get_elem? tokens i ≡ some t → (v : ℤ) × (stol t ≡ some v)

module _ (stol : Bytes → Option ℤ) (tokens : List Bytes) where
  -- The value of a token that is a number.
  abbrev pub IsNumber : ℕ → ℤ → Type 0
  IsNumber i v = (t : Bytes) × (get_elem? tokens i ≡ some t) × (stol t ≡ some v)

  with_token-there :
      (i : ℕ) (next : Bytes → Stats)
      → i < length tokens
      → (t : Bytes) × (get_elem? tokens i ≡ some t) × (with_token tokens i next ≡ next t)
  unfolding with_token
  with_token-there i next h = let (t, e) = there tokens i h in (t, e, rw (e, with_token) refl)

  with_number-there :
      (i : ℕ) (next : ℤ → Stats)
      → Numeric stol tokens
      → 3 ≤ i
      → i < length tokens
      → (v : ℤ) × IsNumber i v × (with_number stol tokens i next ≡ next v)
  unfolding with_number with_token
  with_number-there i next numbers after_state h =
      let (t, e) = there tokens i h in
      let (v, read) = numbers i t after_state e in
      (v, (t, e, read), rw (e, with_token) (rw read refl))

  with_number-beyond :
      (i : ℕ) (next : ℤ → Stats) → length tokens ≤ i → with_number stol tokens i next ≡ out_of_range
  unfolding with_number with_token
  with_number-beyond i next h = rw (beyond tokens i h, with_token) refl

  -- The two fields that the guard does not ask for.
  abbrev last_two : Bytes → ℤ → ℤ → Stats
  last_two name utime stime =
      with_number stol tokens 22
        (λ vsize. with_number stol tokens 23 (λ rss. shown name utime stime vsize rss))

  last_two-short :
      (name : Bytes) (utime stime : ℤ)
      → Numeric stol tokens
      → length tokens < 24
      → last_two name utime stime ≡ out_of_range
  last_two-short name utime stime numbers short = elim (Bool-cases (ltb (length tokens) 23)) [
    | inl shorter ↦ with_number-beyond 22 _ (ground arith)
    | inr one_more ↦
        let (vsize, is_vsize, e) =
          with_number-there 22
            (λ vsize. with_number stol tokens 23 (λ rss. shown name utime stime vsize rss)) numbers
            (ground arith) (ground arith) in
        e ∙ with_number-beyond 23 _ (omega arith)
  ]

  last_two-long :
      (name : Bytes) (utime stime : ℤ)
      → Numeric stol tokens
      → 24 ≤ length tokens
      → (vsize : ℤ) × (rss : ℤ) × IsNumber 22 vsize
        × IsNumber 23 rss
        × (last_two name utime stime ≡ shown name utime stime vsize rss)
  last_two-long name utime stime numbers enough =
      let (vsize, is_vsize, e) =
        with_number-there 22
          (λ vsize. with_number stol tokens 23 (λ rss. shown name utime stime vsize rss)) numbers
          (omega arith) (omega arith) in
      let (rss, is_rss, g) =
        with_number-there 23 (λ rss. shown name utime stime vsize rss) numbers (omega arith)
          (omega arith) in
      (vsize, rss, is_vsize, is_rss, e ∙ g)

  first_three :
      Numeric stol tokens
      → 22 ≤ length tokens
      → (name : Bytes) × (utime : ℤ) × (stime : ℤ) × (get_elem? tokens 1 ≡ some name)
        × IsNumber 13 utime
        × IsNumber 14 stime
        × (read_tokens stol tokens ≡ last_two name utime stime)
  unfolding read_tokens
  first_three numbers enough =
      let (name, is_name, e) =
        with_token-there 1
          (λ name.
            with_number stol tokens 13
              (λ utime. with_number stol tokens 14 (λ stime. last_two name utime stime)))
          (omega arith) in
      let (utime, is_utime, g) =
        with_number-there 13
          (λ utime. with_number stol tokens 14 (λ stime. last_two name utime stime)) numbers
          (omega arith) (omega arith) in
      let (stime, is_stime, h) =
        with_number-there 14 (λ stime. last_two name utime stime) numbers (omega arith)
          (omega arith) in
      (name, utime, stime, is_name, is_utime, is_stime, e ∙ g ∙ h)

  stats_of-short : length tokens < 22 → stats_of stol tokens ≡ unexpected
  unfolding stats_of
  stats_of-short h = ground arith

  stats_of-enough : 22 ≤ length tokens → stats_of stol tokens ≡ read_tokens stol tokens
  unfolding stats_of
  stats_of-enough h = ground arith

-- A line of less than 22 tokens is refused, one of 22 or 23 is read beyond the end of the vector,
-- and one of 24 or more has its second token and the numbers of its 14th, 15th, 23rd and 24th
-- tokens shown, if its tokens from the fourth on are numbers.
pub print_process_stats-cases :
    (stol : Bytes → Option ℤ) (file : Bytes) (tokens : List Bytes)
    → split (first_line file) 32 ≡ tokens
    → Numeric stol tokens
    → (length tokens < 22 → print_process_stats stol (some file) ≡ unexpected)
      × (22 ≤ length tokens
          → length tokens < 24
          → print_process_stats stol (some file) ≡ out_of_range)
      × (24 ≤ length tokens
          → (name : Bytes) × (utime : ℤ) × (stime : ℤ) × (vsize : ℤ) × (rss : ℤ) × (get_elem? tokens
                1
              ≡ some name)
            × IsNumber stol tokens 13 utime
            × IsNumber stol tokens 14 stime
            × IsNumber stol tokens 22 vsize
            × IsNumber stol tokens 23 rss
            × (print_process_stats stol (some file) ≡ shown name utime stime vsize rss))
unfolding print_process_stats
print_process_stats-cases stol file tokens line numbers = (
  λ few. ap (stats_of stol) line ∙ stats_of-short stol tokens few,
  λ enough short.
      let (name, utime, stime, is_name, is_utime, is_stime, e) =
        first_three stol tokens numbers enough in
      ap (stats_of stol) line
      ∙ stats_of-enough stol tokens enough
      ∙ e
      ∙ last_two-short stol tokens name utime stime numbers short,
  λ enough.
      let (name, utime, stime, is_name, is_utime, is_stime, e) =
        first_three stol tokens numbers (omega arith) in
      let (vsize, rss, is_vsize, is_rss, g) =
        last_two-long stol tokens name utime stime numbers enough in
      (
        name,
        utime,
        stime,
        vsize,
        rss,
        is_name,
        is_utime,
        is_stime,
        is_vsize,
        is_rss,
        ap (stats_of stol) line ∙ stats_of-enough stol tokens (omega arith) ∙ e ∙ g,
      ),
)
