-- ===== src/Database/Contract/Pulls.antt =====
-- What a pull answers, from the view that the tables show.

use mathlib.Core.List.{Perm}
use mathlib.Core.List.Perm
use tiny_im.Prelude.{
  ℕ, ◌≡◌, refl, subst, List, [], ◌∷◌, some, arith, Bytes, c_str, select, same_iff,
}
use tiny_im.Message.{Message}
use tiny_im.Database.Schema.{StoredMessage, select_recent}
use tiny_im.Database.Engine.{Engine, Works, ReadsAll}
use tiny_im.Database.Pool.{Db, ok}
use tiny_im.Database.Pool.Frame.{rotate, left, query-healthy}
use tiny_im.Database.Messages.{concerns, read_messages, get_recent_messages}
use tiny_im.Database.Messages.Pulls.{read_messages-legible}
use tiny_im.Database.Contract.{View, Represents, is_recent, recent, IsLegible}

concerns-is_recent :
    (now days : ℕ) (id : Bytes) (m : StoredMessage)
    → concerns now days id m ≡ is_recent now days id m
concerns-is_recent now days id m = ground (
  arith,
  same_iff m.from_user_id id,
  same_iff id m.from_user_id,
  same_iff m.to_user_id id,
  same_iff id m.to_user_id,
)

select-recent :
    (now days : ℕ) (id : Bytes) (ms : List StoredMessage)
    → select (concerns now days id) ms ≡ select (is_recent now days id) ms
select-recent now days id [] = refl
select-recent now days id (m ∷ ms) =
    rw (concerns-is_recent now days id m, select-recent now days id ms) refl

module _ {e : Engine} (w : Works e) (reads : ReadsAll e) (db : Db) (v : View)
    (r : Represents db v) where
  -- The rows are read in an order that the engine chooses.
  pub get_recent_messages-recent :
      (now days : ℕ) (id : Bytes)
      → IsLegible now days id v
      → (rows : List StoredMessage) × (ms : List Message) × Perm rows (recent now days id v)
        × (read_messages now rows ≡ some ms)
        × (get_recent_messages e now id days db ≡ (left db.tables (rotate db.pool), ok ms))
  unfolding get_recent_messages
  get_recent_messages-recent now days id legible =
      let talk = select (concerns now days (c_str id)) db.tables.messages in
      let rows = e.scan_messages talk in
      let perm : Perm rows (recent now days id v) =
        subst (λ l. Perm rows (select (is_recent now days (c_str id)) l)) r.shows.talk_all
          (subst (Perm rows) (select-recent now days (c_str id) db.tables.messages)
            (reads.messages_all talk)) in
      let (ms, read) =
        read_messages-legible now rows (λ m i. legible m ((Perm.mem_iff perm).0 i)) in
      (
        rows,
        ms,
        perm,
        read,
        query-healthy e select_recent [] _ w db db.tables ms r.healthy (rw read refl),
      )
