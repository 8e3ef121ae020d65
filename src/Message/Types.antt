-- ===== src/Message/Types.antt =====
-- `Message::MessageType`, `messageTypeToString` and `stringToMessageType`.
use tiny_im.Prelude.{
  ◌≡◌, refl, Option, none, some, arith, if◌then◌else◌, Bytes, codes, same, same_iff,
}

pub data MessageType : Type 0 where
  sign_up sign_up_response login login_response logout text add_friend friend_request
        friend_request_response friend_list private_chat group_chat pull_message :
      MessageType

-- The switch names every tag, so its default is never taken.
unfoldable pub message_type_to_string : MessageType → Bytes
message_type_to_string sign_up = codes "SIGN_UP"
message_type_to_string sign_up_response = codes "SIGN_UP_RESPONSE"
message_type_to_string login = codes "LOGIN"
message_type_to_string login_response = codes "LOGIN_RESPONSE"
message_type_to_string logout = codes "LOGOUT"
message_type_to_string text = codes "TEXT"
message_type_to_string add_friend = codes "ADD_FRIEND"
message_type_to_string friend_list = codes "FRIEND_LIST"
message_type_to_string private_chat = codes "PRIVATE_CHAT"
message_type_to_string group_chat = codes "GROUP_CHAT"
message_type_to_string friend_request = codes "FRIEND_REQUEST"
message_type_to_string friend_request_response = codes "FRIEND_REQUEST_RESPONSE"
message_type_to_string pull_message = codes "PULL_MESSAGE"

-- `none` is the exception std::invalid_argument.
unfoldable pub string_to_message_type : Bytes → Option MessageType
string_to_message_type s =
    if same s (codes "PULL_MESSAGE")
    then some pull_message
    else if same s (codes "SIGN_UP")
    then some sign_up
    else if same s (codes "SIGN_UP_RESPONSE")
    then some sign_up_response
    else if same s (codes "LOGIN")
    then some login
    else if same s (codes "LOGIN_RESPONSE")
    then some login_response
    else if same s (codes "LOGOUT")
    then some logout
    else if same s (codes "TEXT")
    then some text
    else if same s (codes "ADD_FRIEND")
    then some add_friend
    else if same s (codes "FRIEND_LIST")
    then some friend_list
    else if same s (codes "PRIVATE_CHAT")
    then some private_chat
    else if same s (codes "GROUP_CHAT")
    then some group_chat
    else if same s (codes "FRIEND_REQUEST")
    then some friend_request
    else if same s (codes "FRIEND_REQUEST_RESPONSE")
    then some friend_request_response
    else none

-- Every tag is read back from its text.
pub string_to_message_type-message_type_to_string :
    (t : MessageType) → string_to_message_type (message_type_to_string t) ≡ some t
unfolding string_to_message_type message_type_to_string same
string_to_message_type-message_type_to_string sign_up = refl
string_to_message_type-message_type_to_string _ = refl

-- A text that is accepted as a message type is the text of the tag it is read as.
pub message_type_to_string-string_to_message_type :
    (s : Bytes) (t : MessageType) → string_to_message_type s ≡ some t → message_type_to_string t ≡ s
unfolding string_to_message_type message_type_to_string
message_type_to_string-string_to_message_type s t h = ground (
  arith,
  same_iff s (codes "PULL_MESSAGE"),
  same_iff s (codes "SIGN_UP"),
  same_iff s (codes "SIGN_UP_RESPONSE"),
  same_iff s (codes "LOGIN"),
  same_iff s (codes "LOGIN_RESPONSE"),
  same_iff s (codes "LOGOUT"),
  same_iff s (codes "TEXT"),
  same_iff s (codes "ADD_FRIEND"),
  same_iff s (codes "FRIEND_LIST"),
  same_iff s (codes "PRIVATE_CHAT"),
  same_iff s (codes "GROUP_CHAT"),
  same_iff s (codes "FRIEND_REQUEST"),
  same_iff s (codes "FRIEND_REQUEST_RESPONSE"),
)
