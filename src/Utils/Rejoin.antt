-- ===== src/Utils/Rejoin.antt =====
-- What `split` loses of a text.
use tiny_im.Prelude.{
  ℕ, ◌≡◌, ◌≢◌, refl, ap, ◌∙◌, Bool, true, false, not, List, [], ◌∷◌, ◌++◌, append_assoc,
  if◌then◌else◌, ◌==◌, ==_iff, Bytes, All, All-append, arith, Bool-cases, inl, inr,
}
use tiny_im.Utils.{read_items, split}

-- Each item with a delimiter after it.
abbrev pub rejoin : ℕ → List Bytes → Bytes
rejoin d [] = []
rejoin d (item ∷ items) = item ++ d ∷ rejoin d items

-- The text, with a delimiter added where characters follow the last one.
abbrev pub closed_from : ℕ → Bool → Bytes → Bytes
closed_from d pending [] = if pending then d ∷ [] else []
closed_from d pending (c ∷ s) = c ∷ closed_from d (not (c == d)) s

abbrev pub LacksDelimiter : ℕ → Bytes → Type 0
LacksDelimiter d = All (λ c. c ≢ d)

differs : (d c : ℕ) → (c == d) ≡ false → c ≢ d
differs d c e = ground (arith, ==_iff c d)

rejoin-read_items :
    (d : ℕ) (s item : Bytes) (extracted : Bool)
    → (extracted ≡ false → item ≡ [])
    → rejoin d (read_items d item extracted s) ≡ item ++ closed_from d extracted s
unfolding read_items
rejoin-read_items d [] item true h = refl
rejoin-read_items d [] item false h = rw (h refl) refl
rejoin-read_items d (c ∷ s) item extracted h = elim (Bool-cases (c == d)) [
  | inl e ↦
      rw (e, (==_iff c d).0 e)
        (ap (λ l. item ++ d ∷ l) (rejoin-read_items d s [] false (λ x. refl)))
  | inr e ↦ rw e (
      rejoin-read_items d s (item ++ c ∷ []) true (λ x. cc)
      ∙ append_assoc item (c ∷ []) (closed_from d true s))
]

read_items-LacksDelimiter :
    (d : ℕ) (s item : Bytes) (extracted : Bool)
    → LacksDelimiter d item
    → All (LacksDelimiter d) (read_items d item extracted s)
unfolding read_items
read_items-LacksDelimiter d [] item true h = (h, tt)
read_items-LacksDelimiter d [] item false h = tt
read_items-LacksDelimiter d (c ∷ s) item extracted h = elim (Bool-cases (c == d)) [
  | inl e ↦ rw e (h, read_items-LacksDelimiter d s [] false tt)
  | inr e ↦ rw e (
      read_items-LacksDelimiter d s (item ++ c ∷ []) true
        (All-append (λ c. c ≢ d) item (c ∷ []) h (differs d c e, tt)))
]

-- The tokens of a text, each with the delimiter after it, give the text back, with a delimiter
-- added at the end if characters follow the last one, and no token holds the delimiter.
pub split-rejoin :
    (str : Bytes) (delimiter : ℕ)
    → (rejoin delimiter (split str delimiter) ≡ closed_from delimiter false str)
      × All (LacksDelimiter delimiter) (split str delimiter)
unfolding split
split-rejoin str delimiter = (
  rejoin-read_items delimiter str [] false (λ e. refl),
  read_items-LacksDelimiter delimiter str [] false tt,
)
