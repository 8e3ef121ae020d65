-- ===== src/Examples/Witnesses/OfHandler.antt =====
-- The handler's theorems in the small world.
use mathlib.Core.Bool.{false≢true}
use mathlib.Core.Logic.{◌≢◌}
use tiny_im.Prelude.{
  ◌≡◌, refl, List, [], ◌∷◌, ◌++◌, ◌||◌, none, some, codes, arith, Bytes, c_str, same, select,
  if◌then◌else◌,
}
use tiny_im.Prelude.Int.{ℤ, pos, next_int, same_int, same_int_iff}
use tiny_im.Decimal.{to_string, stoi}
use tiny_im.Message.{Message, new}
use tiny_im.Message.Types.{
  sign_up, login, login_response, group_chat, add_friend, friend_request_response,
}
use tiny_im.Database.Pool.{Db, ok, query}
use tiny_im.Database.Pool.Frame.{left, rotate}
use tiny_im.Database.Credentials.{generate_uuid, hash_password}
use tiny_im.Database.Friends.Calls.{both_ways}
use tiny_im.Database.Users.{authenticate_user, get_user_name_by_id}
use tiny_im.Database.Users.Accounts.{IsFresh}
use tiny_im.Database.Messages.{read_messages, concerns}
use tiny_im.Database.Friends.Rows.{status_of, same_pair, or_else}
use tiny_im.Handler.State.{Effect, sends, State, find}
use tiny_im.Handler.Sessions.{UniqueKeys}
use tiny_im.Handler.Account.{
  login_succeeded, login_failed, login_user, logout_user, handle_disconnection, belongs,
}
use tiny_im.Handler.Account
use tiny_im.Handler.Account.Answers.{Reads, members, session_after, login_user-answers}
use tiny_im.Handler.Account.Journey.{Asks, at_login, sign_up-login_user}
use tiny_im.Handler.Account.Leaving.{logout_user-find, handle_disconnection-find, other_than}
use tiny_im.Handler.Chat.{send_group_message}
use tiny_im.Handler.Chat.Delivery.{send_group_message-select, after_send}
use mathlib.Core.List.{Perm, reverse_perm}
use tiny_im.Handler.Contacts.{ack_add_friend}
use tiny_im.Handler.Contacts
use tiny_im.Handler.Contacts.Befriending.{
  ack_add_friend-either, ack_add_friend-reject_leaves, notice, with_rows,
}
use tiny_im.Handler.Contacts.Asking.{add_friend-asks}
use tiny_im.Examples.Codec.{codec, codec-laws, or_empty}
use tiny_im.Examples.World.{
  engine, engine-Works, engine-ReadsAll, checksum, random, random-InBounds, env, tables,
  connections, db, db-IsHealthy, state, message,
}

pub keys_unique : UniqueKeys state.sessions
unfolding find same_int
keys_unique = (refl, (refl, tt))

send_group_message-select_example :
    (xs : List Effect) × (send_group_message env (pos 111) (pos 9) (codes "hi") 1 state
      ≡ (after_send state db xs, ok tt))
    × Perm xs (sends 2 (new (pos 1000) (pos 111) (pos 9) group_chat (pos 9) (codes "hi")) ∷ [])
send_group_message-select_example =
    send_group_message-select env (pos 111) (pos 9) (codes "hi") 1 state
      (reverse_perm state.sessions)

nothing_read :
    read_messages 1000 (select (concerns 1000 1 (to_string (pos 111))) tables.messages) ≡ some []
unfolding read_messages
nothing_read = refl

logout_user-find_example :
    find (pos 111) (logout_user (pos 111) 2 state).0.sessions
    ≡ (if same_int (pos 111) (pos 111) then none else find (pos 111) state.sessions)
logout_user-find_example = (logout_user-find (pos 111) 2 state (pos 111)).0

handle_disconnection-find_example :
    find (pos 222) (handle_disconnection 1 state).0.sessions
    ≡ other_than 1 (find (pos 222) state.sessions)
handle_disconnection-find_example = (handle_disconnection-find 1 state (pos 222) keys_unique).0

codec_dump : codec.Json → Bytes
unfolding or_empty
codec_dump j = or_empty (codec.dump j)

unfoldable pub nobody_in : State
nobody_in = record { sessions = []; db = db; effects = [] }

-- The salted password of user 111 sums to a multiple of 256, so its stored hash is 00.
pub right_password :
    authenticate_user engine checksum (to_string (pos 111)) (codes "=") db
    ≡ (left tables (rotate connections), ok (some (codes "ann")))
unfolding authenticate_user query hash_password checksum to_string c_str same
right_password = refl

unfoldable pub success : Bytes
unfolding codec_dump codec
success = codec_dump (login_succeeded codec env (codes "ann"))

unfoldable pub failure : Bytes
unfolding codec_dump codec
failure = codec_dump (login_failed codec env (codes "repeated login"))

login_user-answers_example :
    let run = login_user codec env (message 111 0 login (codes "=")) 7 state in
    let there = find (pos 111) state.sessions in
    (run.1 ≡ ok tt)
    × ((m : Message) × (run.0.effects ≡ [] ++ sends 7 m ∷ [])
        × (m.message_type ≡ login_response)
        × (m.to_user_id ≡ pos 0)
        × (m.message_id ≡ next_int (pos 77))
        × Reads codec m.content (members codec (some (codes "ann")) there))
    × (run.0.db ≡ left tables (rotate connections))
    × (find (pos 222) run.0.sessions
        ≡ session_after codec
            (some (codes "ann"))
            there
            (pos 111)
            7
            (pos 222)
            (find (pos 222) state.sessions))
login_user-answers_example =
    login_user-answers codec codec-laws env (message 111 0 login (codes "=")) 7 state
      (left tables (rotate connections)) failure (some (codes "ann")) right_password
      (unfold codec failure login_failed find same_int in refl) (pos 222)

request_content : Bytes
unfolding codec_dump codec
request_content = codec_dump (
    codec.object (
      (codes "password", codec.of_text (codes "pw"))
      ∷ (codes "username", codec.of_text (codes "cat"))
      ∷ []))

Asks-cat : Asks codec (message 0 0 sign_up request_content) (codes "pw") (codes "cat")
unfolding request_content codec same
Asks-cat = record {
  json = request_content;
  parsed = refl;
  has_password = refl;
  has_username = refl;
}

fresh : IsFresh (generate_uuid random) db.tables.users
unfolding generate_uuid same
fresh = refl

welcome : Bytes
unfolding codec_dump codec
welcome = codec_dump (login_succeeded codec (at_login env 1001 (pos 3)) (c_str (codes "cat")))

spells : stoi (generate_uuid random) ≡ some (pos 123456789)
unfolding stoi generate_uuid
spells = refl

sign_up-login_user_example :
    let answered = (Account.sign_up codec env (message 0 0 sign_up request_content) 8 state).0 in
    let entered =
      (login_user codec
        (at_login env 1001 (pos 3))
        (message 123456789 0 login (codes "pw"))
        9
        answered).0 in
    find (pos 123456789) entered.sessions ≡ some 9
sign_up-login_user_example =
    (sign_up-login_user codec env 1001 (pos 3) (message 0 0 sign_up request_content)
      (message 123456789 0 login (codes "pw")) 8 9 state (codes "pw") (codes "cat") welcome
      123456789 engine-Works engine-ReadsAll db-IsHealthy random-InBounds fresh Asks-cat spells refl
      refl (unfold find same_int in refl) (unfold codec welcome in refl)).1

row_there : status_of (to_string (pos 111)) (to_string (pos 222)) db.tables.friends ≡ some 1
unfolding status_of to_string same
row_there = refl

row_back : status_of (to_string (pos 222)) (to_string (pos 111)) db.tables.friends ≡ some 1
unfolding status_of to_string same
row_back = refl

ack_add_friend-either_example :
    status_of
      (to_string (pos 111))
      (to_string (pos 222))
      (ack_add_friend env
        (message 111 222 friend_request_response (codes "accept"))
        state).0.db.tables.friends
    ≡ some 1
ack_add_friend-either_example =
    (ack_add_friend-either env (message 111 222 friend_request_response (codes "accept")) state 1 1
      engine-Works db-IsHealthy refl row_there row_back).0

users_differ : ◌≢◌ {A = ℤ} (pos 111) (pos 222)
unfolding same_int
users_differ e = false≢true ((same_int_iff (pos 111) (pos 222)).1 e)

ack_add_friend-reject_leaves_example :
    status_of
      (to_string (pos 222))
      (to_string (pos 111))
      (ack_add_friend env
        (message 111 222 friend_request_response (codes "reject"))
        state).0.db.tables.friends
    ≡ none
ack_add_friend-reject_leaves_example =
    (ack_add_friend-reject_leaves env (message 111 222 friend_request_response (codes "reject"))
      state engine-Works db-IsHealthy refl (omega arith) (omega arith) users_differ).0

requested_rows : Db
requested_rows =
    (with_rows state (both_ways (to_string (pos 111)) (to_string (pos 222)) tables.friends)).db

ann_asks :
    get_user_name_by_id engine (to_string (pos 111)) requested_rows
    ≡ (left requested_rows.tables (rotate (rotate connections)), ok (some (codes "ann")))
unfolding get_user_name_by_id query requested_rows to_string c_str same
ann_asks = refl

add_friend-asks_example :
    let s' = (Contacts.add_friend env (message 111 222 add_friend []) state).0 in
    let a = to_string (pos 111) in
    let b = to_string (pos 222) in
    (status_of b a s'.db.tables.friends ≡ (
      if same_pair a b b a || same_pair b a b a
      then or_else (status_of b a tables.friends) (some 0)
      else status_of b a tables.friends))
    × (s'.effects
        ≡ []
          ++ notice env
              (message 111 222 add_friend [])
              (some (codes "ann"))
              (find (pos 222) state.sessions))
    × (s'.sessions ≡ state.sessions)
add_friend-asks_example =
    add_friend-asks env (message 111 222 add_friend []) state
      (left requested_rows.tables (rotate (rotate connections))) (some (codes "ann"))
      (to_string (pos 222)) (to_string (pos 111)) engine-Works db-IsHealthy users_differ
      (unfold requested_rows in ann_asks)
