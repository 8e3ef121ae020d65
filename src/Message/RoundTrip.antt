-- ===== src/Message/RoundTrip.antt =====
-- The trip of a message through `toJson` and `fromJson`.
use tiny_im.Prelude.{◌≡◌, refl, some, Bytes, codes, same}
use tiny_im.Prelude.Int.{IsInt}
use tiny_im.Message.Types.{message_type_to_string, string_to_message_type-message_type_to_string}
use tiny_im.Message.Json.{JsonLib, JsonLaws, IsTime}
use tiny_im.Message.{Message, fields, to_json, from_json}

pub record InRange (m : Message) : Type 0 where
  pub from_int : IsInt m.from_user_id
  pub to_int : IsInt m.to_user_id
  pub id_int : IsInt m.message_id
  pub time_64 : IsTime m.timestamp

-- A message whose numbers are in range and that toJson writes to a text is read back from this
-- text by fromJson, if the JSON library keeps its documented laws.
pub from_json-to_json :
    (lib : JsonLib) (laws : JsonLaws lib) (m : Message) (s : Bytes)
    → InRange m
    → to_json lib m ≡ some s
    → from_json lib s ≡ some m
unfolding to_json from_json fields same
from_json-to_json lib laws m s ok h =
    let fs = fields lib m in
    rw
      (
        laws.parse-dump (lib.object fs) s h,
        laws.get_int-object fs (codes "fromUserId") m.from_user_id ok.from_int refl,
        laws.get_int-object fs (codes "toUserId") m.to_user_id ok.to_int refl,
        laws.get_text-object fs (codes "messageType") (message_type_to_string m.message_type) refl,
        string_to_message_type-message_type_to_string m.message_type,
        laws.get_int-object fs (codes "messageId") m.message_id ok.id_int refl,
        laws.get_text-object fs (codes "content") m.content refl,
        laws.get_time-object fs (codes "timestamp") m.timestamp ok.time_64 refl,
      )
      refl
