-- ===== src/Database/Messages.antt =====
-- `storeMessage`, `getRecentMessages` and the messages kept for users who are offline.
pub mod History
pub mod Pulls
pub mod Offline
use tiny_im.Prelude.{
  ℕ, suc, ◌+◌, ◌-◌, ◌*◌, ◌≡◌, Bool, true, false, not, ◌&&◌, ◌||◌, List, [], ◌∷◌, ◌++◌, map, Option,
  none, some, if◌then◌else◌, leb, Bytes, same, c_str, select, ◌>>=◌,
}
use tiny_im.Prelude.Int.{ℤ, pos}
use tiny_im.Decimal.{stoi, to_string}
use tiny_im.Message.{Message, new}
use tiny_im.Message.Types.{string_to_message_type}
use tiny_im.Database.Schema.{
  Tables, StoredMessage, OfflineMessage, insert_message, select_recent, insert_offline,
  select_offline, delete_offline,
}
use tiny_im.Database.Engine.{Engine}
use tiny_im.Database.Pool.{Db, Result, query}

-- `now` is the second of `datetime('now')`.
unfoldable pub append_message : ℕ → Bytes → Bytes → Bytes → Bytes → Tables → Tables
append_message now from to type content t =
    let id = suc t.last_message_id in
    record t {
      messages =
          t.messages
          ++ record {
            message_id = id;
            from_user_id = from;
            to_user_id = to;
            message_type = type;
            content = content;
            timestamp = now;
          }
            ∷ [];
      last_message_id = id;
    }

unfoldable pub store_message : Engine → ℕ → Bytes → Bytes → Bytes → Bytes → Db → Db × Result Bool
unfolding append_message
store_message e now from to type content db =
    query e insert_message false
      (λ t.
        if e.writes t insert_message
        then (append_message now (c_str from) (c_str to) (c_str type) (c_str content) t, some true)
        else (t, some false))
      db

-- The second of the Julian day 0, before the epoch of Unix. An earlier `datetime` is NULL.
abbrev pub julian_epoch : ℕ
julian_epoch = 210866760000

-- WHERE (from_user_id = ? OR to_user_id = ?) AND timestamp >= datetime('now', '-days days'). No row
-- is compared with NULL successfully.
abbrev pub concerns : ℕ → ℕ → Bytes → StoredMessage → Bool
concerns now days id m =
    (same m.from_user_id id || same m.to_user_id id)
    && leb (days * 86400) (now + julian_epoch)
    && leb (now - days * 86400) m.timestamp

-- One round of the loop over the rows: the columns become a `Message`, whose constructor takes the
-- time of the call.
unfoldable pub read_message : ℕ → StoredMessage → Option Message
read_message now m = do
  from ← stoi m.from_user_id
  to ← stoi m.to_user_id
  type ← string_to_message_type m.message_type
  id ← stoi (to_string (pos m.message_id))
  some (new (pos now) from to type id m.content)

unfoldable pub read_messages : ℕ → List StoredMessage → Option (List Message)
read_messages now [] = some []
read_messages now (m ∷ ms) = do x ← read_message now m; xs ← read_messages now ms; some (x ∷ xs)

unfoldable pub get_recent_messages : Engine → ℕ → Bytes → ℕ → Db → Db × Result (List Message)
get_recent_messages e now user_id days db =
    query e select_recent []
      (λ t. (
        t,
        read_messages now (e.scan_messages (select (concerns now days (c_str user_id)) t.messages)),
      ))
      db

unfoldable pub store_offline_message : Engine → Bytes → Bytes → Db → Db × Result Bool
store_offline_message e user_id content db =
    query e insert_offline false
      (λ t.
        if e.writes t insert_offline
        then (
          record t {
            offline_messages =
                t.offline_messages
                ++ record { user_id = c_str user_id; content = c_str content } ∷ [];
          },
          some true,
        )
        else (t, some false))
      db

abbrev pub kept_for : Bytes → OfflineMessage → Bool
kept_for id m = same m.user_id id

unfoldable pub get_offline_messages : Engine → Bytes → Db → Db × Result (List Bytes)
get_offline_messages e user_id db =
    query e select_offline []
      (λ t. (
        t,
        some (
            map (λ m. m.content)
              (e.scan_offline (select (kept_for (c_str user_id)) t.offline_messages))),
      ))
      db

unfoldable pub mark_messages_as_read : Engine → Bytes → Db → Db × Result Bool
mark_messages_as_read e user_id db =
    query e delete_offline false
      (λ t.
        if e.writes t delete_offline
        then (
          record t {
            offline_messages = select (λ m. not (kept_for (c_str user_id) m)) t.offline_messages;
          },
          some true,
        )
        else (t, some false))
      db
