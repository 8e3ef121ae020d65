-- ===== src/Message/Json.antt =====
-- The JSON library, nlohmann::json, as an interface: the operations that the program calls and, as
-- laws, what their documentation promises. An exception is `none`.
use tiny_im.Prelude.{◌^◌, ◌<◌, ◌≡◌, List, [], ◌∷◌, Option, none, some, if◌then◌else◌, Bytes, same}
use tiny_im.Prelude.Int.{ℤ, pos, negsuc, IsInt}

pub record JsonLib : Type 1 where
  pub Json : Type 0
  -- `json::parse` and `dump`.
  pub parse : Bytes → Option Json
  pub dump : Json → Option Bytes
  -- The conversions from `int`, `std::time_t` and `std::string`.
  pub of_int : ℤ → Json
  pub of_text : Bytes → Json
  -- A null value after the assignments `j[key] = value`, in this order.
  pub object : List (Bytes × Json) → Json
  pub array : List Json → Json
  -- `j[key]` converted to `int`, to `std::time_t` and to `std::string`.
  pub get_int : Json → Bytes → Option ℤ
  pub get_time : Json → Bytes → Option ℤ
  pub get_text : Json → Bytes → Option Bytes

-- The value that the last assignment to a key leaves.
abbrev pub last_value {ℓ} : {V : Type ℓ} → Option V → Bytes → List (Bytes × V) → Option V
last_value found k [] = found
last_value found k ((j, v) ∷ fs) = last_value (if same j k then some v else found) k fs

-- A 64-bit signed integer, the range of `std::time_t`.
abbrev pub IsTime : ℤ → Type 0
IsTime (pos n) = n < 2 ^ 63
IsTime (negsuc n) = n < 2 ^ 63

pub record JsonLaws (lib : JsonLib) : Type 0 where
  pub parse-dump : (j : lib.Json) (s : Bytes) → lib.dump j ≡ some s → lib.parse s ≡ some j
  pub get_int-object :
      (fs : List (Bytes × lib.Json)) (k : Bytes) (i : ℤ)
      → IsInt i
      → last_value none k fs ≡ some (lib.of_int i)
      → lib.get_int (lib.object fs) k ≡ some i
  pub get_time-object :
      (fs : List (Bytes × lib.Json)) (k : Bytes) (i : ℤ)
      → IsTime i
      → last_value none k fs ≡ some (lib.of_int i)
      → lib.get_time (lib.object fs) k ≡ some i
  pub get_text-object :
      (fs : List (Bytes × lib.Json)) (k s : Bytes)
      → last_value none k fs ≡ some (lib.of_text s)
      → lib.get_text (lib.object fs) k ≡ some s
