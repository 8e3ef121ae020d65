-- ===== src/Database/Messages/Offline.antt =====
-- The messages kept for users who are offline.
use tiny_im.Prelude.{
  ◌≡◌, ap, true, false, not, List, [], ◌∷◌, ◌++◌, map, arith, Bytes, c_str, same, same_iff,
  if◌then◌else◌, select,
}
use tiny_im.Database.Schema.{Tables, OfflineMessage, insert_offline, select_offline, delete_offline}
use tiny_im.Database.Engine.{Engine, Works}
use tiny_im.Database.Pool.{Db, ok}
use tiny_im.Database.Pool.Frame.{IsHealthy, rotate, left, query-healthy}
use tiny_im.Database.Messages.{
  kept_for, store_offline_message, get_offline_messages, mark_messages_as_read,
}

-- The contents kept for an id, oldest first.
abbrev pub kept : Bytes → Tables → List Bytes
kept id t = map (λ m. m.content) (select (kept_for id) t.offline_messages)

abbrev pub with_offline : Tables → List OfflineMessage → Tables
with_offline t ms = record t { offline_messages = ms }

pub kept-append :
    (id : Bytes) (ms : List OfflineMessage) (m : OfflineMessage)
    → map (λ (x : OfflineMessage). x.content) (select (kept_for id) (ms ++ m ∷ []))
      ≡ map (λ (x : OfflineMessage). x.content) (select (kept_for id) ms)
        ++ (if same m.user_id id then m.content ∷ [] else [])
kept-append id [] m = ground arith
kept-append id (x ∷ ms) m = ground (arith, kept-append id ms m)

pub kept-drop :
    (id reader : Bytes) (ms : List OfflineMessage)
    → map
        (λ (x : OfflineMessage). x.content)
        (select (kept_for reader) (select (λ m. not (kept_for id m)) ms))
      ≡ (if same id reader
          then []
          else map (λ (x : OfflineMessage). x.content) (select (kept_for reader) ms))
kept-drop id reader [] = ground arith
kept-drop id reader (m ∷ ms) = ground (
  arith,
  kept-drop id reader ms,
  same_iff id reader,
  same_iff m.user_id id,
  same_iff m.user_id reader,
)

module _ {e : Engine} (w : Works e) (db : Db) (user : Bytes) (healthy : IsHealthy db) where
  pub store_offline_message-healthy :
      (content : Bytes)
      → store_offline_message e user content db ≡ (
        left
            (with_offline db.tables (
              db.tables.offline_messages
              ++ record { user_id = c_str user; content = c_str content } ∷ []))
            (rotate db.pool),
        ok true,
      )
  unfolding store_offline_message
  store_offline_message-healthy content =
      query-healthy e insert_offline false _ w db _ true healthy
        (rw (w.writes_all db.tables insert_offline))

  pub mark_messages_as_read-healthy : mark_messages_as_read e user db ≡ (
    left
        (with_offline db.tables
          (select (λ m. not (kept_for (c_str user) m)) db.tables.offline_messages))
        (rotate db.pool),
    ok true,
  )
  unfolding mark_messages_as_read
  mark_messages_as_read-healthy =
      query-healthy e delete_offline false _ w db _ true healthy
        (rw (w.writes_all db.tables delete_offline))

  pub get_offline_messages-healthy :
      ((l : List OfflineMessage) → e.scan_offline l ≡ l)
      → get_offline_messages e user db
        ≡ (left db.tables (rotate db.pool), ok (kept (c_str user) db.tables))
  unfolding get_offline_messages
  get_offline_messages-healthy order =
      query-healthy e select_offline [] _ w db db.tables (kept (c_str user) db.tables) healthy
        (rw (order (select (kept_for (c_str user)) db.tables.offline_messages)))

  -- Storing a message for a user adds its content to what is kept for this user, and to nothing
  -- else; marking the messages as read empties what is kept for this user, and nothing else; and a
  -- read in table order returns what is kept. The engine works and the pool is healthy.
  pub offline-kept :
      (content : Bytes)
      → ((reader : Bytes)
          → kept reader (store_offline_message e user content db).0.tables
            ≡ kept reader db.tables
              ++ (if same (c_str user) reader then c_str content ∷ [] else []))
        × ((reader : Bytes)
            → kept reader (mark_messages_as_read e user db).0.tables
              ≡ (if same (c_str user) reader then [] else kept reader db.tables))
        × (((l : List OfflineMessage) → e.scan_offline l ≡ l)
            → (get_offline_messages e user db).1 ≡ ok (kept (c_str user) db.tables))
  offline-kept content = (
    λ reader.
        rw (store_offline_message-healthy content)
          (kept-append reader db.tables.offline_messages _),
    λ reader.
        rw mark_messages_as_read-healthy (kept-drop (c_str user) reader db.tables.offline_messages),
    λ order. ap (λ r. r.1) (get_offline_messages-healthy order),
  )
