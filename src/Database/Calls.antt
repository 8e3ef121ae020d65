-- ===== src/Database/Calls.antt =====
-- Every public query of `Database`, as one step on the database.
pub mod Leaks
use tiny_im.Prelude.{ℕ, List, [], ◌∷◌, Bytes}
use tiny_im.Database.Engine.{Engine}
use tiny_im.Database.Pool.{Db}
use tiny_im.Database.Credentials.{Random}
use tiny_im.Database.Users.{register_user, set_username, authenticate_user, get_user_name_by_id}
use tiny_im.Database.Friends.{
  add_friend, ack_add_friend, remove_friend, get_friend_list_username, get_friend_list,
}
use tiny_im.Database.Messages.{
  store_message, get_recent_messages, store_offline_message, get_offline_messages,
  mark_messages_as_read,
}

pub data Call : Type 0 where
  registers : Random → Bytes → Bytes → Call
  renames authenticates adds acks removes keeps : Bytes → Bytes → Call
  names_user lists_names lists_ids gets_kept marks : Bytes → Call
  stores : ℕ → Bytes → Bytes → Bytes → Bytes → Call
  pulls : ℕ → Bytes → ℕ → Call

-- The database after a call. `getFriendPair` is the two calls `lists_ids` and `lists_names`.
unfoldable pub after : Engine → (Bytes → Bytes) → Db → Call → Db
after e sha256 db (registers r password name) = (register_user e sha256 r password name db).0
after e sha256 db (renames id name) = (set_username e id name db).0
after e sha256 db (authenticates id password) = (authenticate_user e sha256 id password db).0
after e sha256 db (adds a b) = (add_friend e a b db).0
after e sha256 db (acks a b) = (ack_add_friend e a b db).0
after e sha256 db (removes a b) = (remove_friend e a b db).0
after e sha256 db (keeps id content) = (store_offline_message e id content db).0
after e sha256 db (names_user id) = (get_user_name_by_id e id db).0
after e sha256 db (lists_names id) = (get_friend_list_username e id db).0
after e sha256 db (lists_ids id) = (get_friend_list e id db).0
after e sha256 db (gets_kept id) = (get_offline_messages e id db).0
after e sha256 db (marks id) = (mark_messages_as_read e id db).0
after e sha256 db (stores now from to type content) =
    (store_message e now from to type content db).0
after e sha256 db (pulls now id days) = (get_recent_messages e now id days db).0

unfoldable pub after_all : Engine → (Bytes → Bytes) → Db → List Call → Db
after_all e sha256 db [] = db
after_all e sha256 db (c ∷ cs) = after_all e sha256 (after e sha256 db c) cs
