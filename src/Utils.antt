-- ===== src/Utils.antt =====
-- inc/Utils.h: `split`, with the rules of `std::getline`.
pub mod Rejoin
pub mod Stats
pub mod Time
use tiny_im.Prelude.{ℕ, Bool, true, false, List, [], ◌∷◌, ◌++◌, if◌then◌else◌, ◌==◌, Bytes}

-- The loop of `getline`. `item` is what the call in progress has read, and `extracted` whether it
-- has read anything: at the end of the text a call that read nothing fails, and the loop ends.
read_items : ℕ → Bytes → Bool → Bytes → List Bytes
read_items delimiter item extracted [] = if extracted then item ∷ [] else []
read_items delimiter item extracted (c ∷ s) =
    if c == delimiter
    then item ∷ read_items delimiter [] false s
    else read_items delimiter (item ++ c ∷ []) true s

unfoldable pub split : Bytes → ℕ → List Bytes
unfolding read_items
split str delimiter = read_items delimiter [] false str
