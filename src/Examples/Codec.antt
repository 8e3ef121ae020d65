-- ===== src/Examples/Codec.antt =====
-- A JSON library that keeps its promises: a value is its own text, and an object is the sequence of
-- its members, each behind the lengths of its key and its value.
use tiny_im.Prelude.{
  ℕ, zero, suc, ◌≤◌, ◌≡◌, refl, ap, sym, ◌∙◌, List, [], ◌∷◌, ◌++◌, Option, none, some, arith,
  length, length-append, Bytes, ◌>>=◌,
}
use tiny_im.Prelude.Int.{ℤ, pos, negsuc}
use tiny_im.Message.{Message, to_json, from_json}
use tiny_im.Message.RoundTrip.{InRange, from_json-to_json}
use tiny_im.Message.Json.{JsonLib, JsonLaws, last_value}

take : ℕ → Bytes → Bytes
take zero s = []
take (suc n) [] = []
take (suc n) (c ∷ s) = c ∷ take n s

drop : ℕ → Bytes → Bytes
drop zero s = s
drop (suc n) [] = []
drop (suc n) (c ∷ s) = drop n s

take-append : (s t : Bytes) → take (length s) (s ++ t) ≡ s
unfolding take
take-append [] t = refl
take-append (c ∷ s) t = ap (λ r. c ∷ r) (take-append s t)

drop-append : (s t : Bytes) → drop (length s) (s ++ t) ≡ t
unfolding drop
drop-append [] t = refl
drop-append (c ∷ s) t = drop-append s t

encode : List (Bytes × Bytes) → Bytes
encode [] = []
encode ((k, v) ∷ fs) = length k ∷ length v ∷ k ++ (v ++ encode fs)

decode : ℕ → Bytes → List (Bytes × Bytes)
unfolding take drop
decode (suc f) (m ∷ n ∷ s) = (take m s, take n (drop m s)) ∷ decode f (drop n (drop m s))
decode _ _ = []

decode-encode : (fs : List (Bytes × Bytes)) (f : ℕ) → length fs ≤ f → decode f (encode fs) ≡ fs
unfolding decode encode
decode-encode [] zero h = refl
decode-encode [] (suc f) h = refl
decode-encode (m ∷ fs) zero h = absurd (omega arith)
decode-encode ((k, v) ∷ fs) (suc f) h =
    rw
      (
        take-append k (v ++ encode fs),
        drop-append k (v ++ encode fs),
        take-append v (encode fs),
        drop-append v (encode fs),
        decode-encode fs f (omega arith),
      )
      refl

length-encode : (fs : List (Bytes × Bytes)) → length fs ≤ length (encode fs)
unfolding encode
length-encode [] = omega arith
length-encode ((k, v) ∷ fs) =
    omega (arith, length-append k (v ++ encode fs), length-append v (encode fs), length-encode fs)

members : Bytes → List (Bytes × Bytes)
unfolding decode
members s = decode (length s) s

members-encode : (fs : List (Bytes × Bytes)) → members (encode fs) ≡ fs
unfolding members
members-encode fs = decode-encode fs (length (encode fs)) (length-encode fs)

of_int : ℤ → Bytes
of_int (pos n) = 0 ∷ n ∷ []
of_int (negsuc n) = 1 ∷ n ∷ []

to_int : Bytes → Option ℤ
to_int (zero ∷ n ∷ []) = some (pos n)
to_int (suc zero ∷ n ∷ []) = some (negsuc n)
to_int _ = none

to_int-of_int : (i : ℤ) → to_int (of_int i) ≡ some i
unfolding to_int of_int
to_int-of_int (pos n) = refl
to_int-of_int (negsuc n) = refl

member : Bytes → Bytes → Option Bytes
unfolding members
member s k = last_value none k (members s)

unfoldable pub codec : JsonLib
unfolding encode member of_int to_int
codec = record {
  Json = Bytes;
  parse = some;
  dump = some;
  of_int = of_int;
  of_text = λ s. s;
  object = encode;
  array = λ js. [];
  get_int = λ j k. member j k >>= to_int;
  get_time = λ j k. member j k >>= to_int;
  get_text = member;
}

member-encode :
    (fs : List (Bytes × Bytes)) (k : Bytes) (o : Option Bytes)
    → last_value none k fs ≡ o
    → member (encode fs) k ≡ o
unfolding member
member-encode fs k o h = ap (last_value none k) (members-encode fs) ∙ h

int_member :
    (fs : List (Bytes × Bytes)) (k : Bytes) (i : ℤ)
    → last_value none k fs ≡ some (of_int i)
    → (member (encode fs) k >>= to_int) ≡ some i
int_member fs k i h =
    ap (λ o. o >>= to_int) (member-encode fs k (some (of_int i)) h) ∙ to_int-of_int i

pub codec-laws : JsonLaws codec
unfolding codec
codec-laws = record {
  parse-dump = λ j s h. sym h;
  get_int-object = λ fs k i r h. int_member fs k i h;
  get_time-object = λ fs k i r h. int_member fs k i h;
  get_text-object = λ fs k s h. member-encode fs k (some s) h;
}

unfoldable pub or_empty : Option Bytes → Bytes
or_empty none = []
or_empty (some s) = s

-- The text of a message.
unfoldable pub text_of : Message → Bytes
unfolding or_empty
text_of m = or_empty (to_json codec m)

pub to_json-text_of : (m : Message) → to_json codec m ≡ some (text_of m)
unfolding to_json text_of codec
to_json-text_of m = refl

pub from_json-text_of : (m : Message) → InRange m → from_json codec (text_of m) ≡ some m
from_json-text_of m range =
    from_json-to_json codec codec-laws m (text_of m) range (to_json-text_of m)
