-- ===== src/Examples/Witnesses/OfUtilities.antt =====
-- A text that is split, and a format that is filled.
use tiny_im.Prelude.{◌≡◌, refl, false, [], ◌∷◌, All, codes}
use tiny_im.Utils.{split}
use tiny_im.Utils.Rejoin.{rejoin, closed_from, LacksDelimiter, split-rejoin}
use tiny_im.Log.{format_impl}
use tiny_im.Log.Format.{format_of, woven, format_impl-woven}

split-rejoin_example :
    (rejoin 32 (split (codes "12 (im) S") 32) ≡ closed_from 32 false (codes "12 (im) S"))
    × All (LacksDelimiter 32) (split (codes "12 (im) S") 32)
split-rejoin_example = split-rejoin (codes "12 (im) S") 32

format_impl-woven_example :
    format_impl (format_of (codes "id " ∷ codes ", " ∷ []) (codes ".")) (codes "7" ∷ [])
    ≡ woven (codes "id " ∷ codes ", " ∷ []) (codes ".") (codes "7" ∷ [])
format_impl-woven_example =
    format_impl-woven (codes "id " ∷ codes ", " ∷ []) (codes ".") (codes "7" ∷ [])
      ((refl, (refl, tt)), ((refl, tt), tt)) tt
