-- ===== src/Message.antt =====
-- inc/Message.h and src/Message.cpp: the message, its type tags and its JSON form. The JSON library
-- is a parameter; an exception is `none`.
pub mod Types
pub mod Json
pub mod RoundTrip
use tiny_im.Prelude.{List, [], ◌∷◌, Option, none, some, Bytes, codes, ◌>>=◌}
use tiny_im.Prelude.Int.{ℤ, pos}
use Types.{MessageType, sign_up, message_type_to_string, string_to_message_type}
use Json.{JsonLib}

pub record Message : Type 0 where
  pub from_user_id : ℤ
  pub to_user_id : ℤ
  pub message_type : MessageType
  pub message_id : ℤ
  pub content : Bytes
  pub timestamp : ℤ

-- The constructor; `now` is `std::time(nullptr)`.
unfoldable pub new : ℤ → ℤ → ℤ → MessageType → ℤ → Bytes → Message
new now from to type id content = record {
  from_user_id = from;
  to_user_id = to;
  message_type = type;
  message_id = id;
  content = content;
  timestamp = now;
}

-- The getters.
abbrev pub get_from_user_id : Message → ℤ
get_from_user_id m = m.from_user_id

abbrev pub get_to_user_id : Message → ℤ
get_to_user_id m = m.to_user_id

abbrev pub get_message_type : Message → MessageType
get_message_type m = m.message_type

abbrev pub get_message_id : Message → ℤ
get_message_id m = m.message_id

abbrev pub get_content : Message → Bytes
get_content m = m.content

-- The setters, which only `fromJson` calls.
abbrev set_from_user_id : ℤ → Message → Message
set_from_user_id from_user_id m = record m { from_user_id = from_user_id }

abbrev set_to_user_id : ℤ → Message → Message
set_to_user_id to_user_id m = record m { to_user_id = to_user_id }

abbrev set_message_type : MessageType → Message → Message
set_message_type type m = record m { message_type = type }

abbrev set_message_id : ℤ → Message → Message
set_message_id message_id m = record m { message_id = message_id }

abbrev set_content : Bytes → Message → Message
set_content content m = record m { content = content }

abbrev set_timestamp : ℤ → Message → Message
set_timestamp timestamp m = record m { timestamp = timestamp }

-- `Message msg;` leaves the numbers uninitialised; `fromJson` assigns every member.
abbrev unset : Message
unset = record {
  from_user_id = pos 0;
  to_user_id = pos 0;
  message_type = sign_up;
  message_id = pos 0;
  content = [];
  timestamp = pos 0;
}

module _ (lib : JsonLib) where
  open lib use {Json, parse, dump, of_int, of_text, object, get_int, get_time, get_text}

  -- The members that `toJson` assigns, in its order.
  fields : Message → List (Bytes × Json)
  fields m =
      (codes "fromUserId", of_int m.from_user_id)
      ∷ (codes "toUserId", of_int m.to_user_id)
      ∷ (codes "messageType", of_text (message_type_to_string m.message_type))
      ∷ (codes "messageId", of_int m.message_id)
      ∷ (codes "content", of_text m.content)
      ∷ (codes "timestamp", of_int m.timestamp)
      ∷ []

  unfoldable pub to_json : Message → Option Bytes
  unfolding fields
  to_json m = dump (object (fields m))

  unfoldable pub from_json : Bytes → Option Message
  from_json s = do
    j ← parse s
    from ← get_int j (codes "fromUserId")
    to ← get_int j (codes "toUserId")
    tag ← get_text j (codes "messageType")
    type ← string_to_message_type tag
    id ← get_int j (codes "messageId")
    content ← get_text j (codes "content")
    time ← get_time j (codes "timestamp")
    let msg1 = set_from_user_id from unset
    let msg2 = set_to_user_id to msg1
    let msg3 = set_message_type type msg2
    let msg4 = set_message_id id msg3
    let msg5 = set_content content msg4
    some (set_timestamp time msg5)
