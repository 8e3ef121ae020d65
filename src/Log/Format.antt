-- ===== src/Log/Format.antt =====
-- What a format becomes.
use tiny_im.Prelude.{◌≡◌, refl, ap, ◌∙◌, false, ◌&&◌, List, [], ◌∷◌, ◌++◌, ◌==◌, Bytes, arith, All}
use tiny_im.Log.{format_impl}

-- A text in which no `{}` stands.
abbrev pub IsPlain : Bytes → Type 0
IsPlain [] = Unit
IsPlain (c ∷ []) = Unit
IsPlain (c ∷ d ∷ s) = ((c == 123 && d == 125) ≡ false) × IsPlain (d ∷ s)

-- A format of texts, each with `{}` after it, and a last one.
abbrev pub format_of : List Bytes → Bytes → Bytes
format_of [] last = last
format_of (p ∷ ps) last = p ++ (123 ∷ 125 ∷ format_of ps last)

-- What it is to print: an argument for each `{}` as long as there are any, and no surplus one.
abbrev pub woven : List Bytes → Bytes → List Bytes → Bytes
woven [] last args = last
woven (p ∷ ps) last [] = p ++ (123 ∷ 125 ∷ format_of ps last)
woven (p ∷ ps) last (arg ∷ args) = p ++ (arg ++ woven ps last args)

format_impl-plain : (p : Bytes) (args : List Bytes) → IsPlain p → format_impl p args ≡ p
unfolding format_impl
format_impl-plain p [] h = refl
format_impl-plain [] (arg ∷ args) h = refl
format_impl-plain (c ∷ []) (arg ∷ args) h = refl
format_impl-plain (c ∷ d ∷ p) (arg ∷ args) h =
    rw h.0 (ap (◌∷◌ c) (format_impl-plain (d ∷ p) (arg ∷ args) h.1))

format_impl-first :
    (p rest arg : Bytes) (args : List Bytes)
    → IsPlain p
    → format_impl (p ++ (123 ∷ 125 ∷ rest)) (arg ∷ args) ≡ p ++ (arg ++ format_impl rest args)
unfolding format_impl
format_impl-first [] rest arg args h = refl
format_impl-first (c ∷ []) rest arg args h = ground arith
format_impl-first (c ∷ d ∷ p) rest arg args h =
    rw h.0 (ap (◌∷◌ c) (format_impl-first (d ∷ p) rest arg args h.1))

-- A format made of texts that hold no {}, with a {} after each and a last text, prints each text
-- followed by its argument; once the arguments are used up the rest of the format is printed as it
-- is, and surplus arguments are dropped.
pub format_impl-woven :
    (ps : List Bytes) (last : Bytes) (args : List Bytes)
    → All IsPlain ps
    → IsPlain last
    → format_impl (format_of ps last) args ≡ woven ps last args
unfolding format_impl
format_impl-woven [] last args h l = format_impl-plain last args l
format_impl-woven (p ∷ ps) last [] h l = refl
format_impl-woven (p ∷ ps) last (arg ∷ args) h l =
    format_impl-first p (format_of ps last) arg args h.0
    ∙ ap (λ r. p ++ (arg ++ r)) (format_impl-woven ps last args h.1 l)
