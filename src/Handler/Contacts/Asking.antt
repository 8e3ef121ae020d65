-- ===== src/Handler/Contacts/Asking.antt =====
-- What a friend request leaves in the table, and whom it tells.
use tiny_im.Prelude.{◌≡◌, ◌≢◌, sym, ap, ◌∙◌, ◌||◌, ◌++◌, Option, some, if◌then◌else◌, Bytes}
use tiny_im.Decimal.{to_string}
use tiny_im.Message.{Message}
use tiny_im.Database.Schema.{Tables}
use tiny_im.Database.Engine.{Works}
use tiny_im.Database.Pool.{Db, ok}
use tiny_im.Database.Pool.Frame.{IsHealthy}
use tiny_im.Database.Users.{get_user_name_by_id}
use tiny_im.Database.Users.Accounts.{get_user_name_by_id-tables}
use tiny_im.Database.Friends.Rows.{status_of, same_pair, or_else}
use tiny_im.Database.Friends.Calls.{both_ways}
use tiny_im.Database.Friends.Symmetry.{both_ways-status_of}
use tiny_im.Handler.State.{Env, State, find}
use tiny_im.Handler.Contacts.{add_friend}
use tiny_im.Handler.Contacts.Befriending.{notice, with_rows, add_friend-requests}

-- A friend request to somebody else leaves a row in each direction, which keeps the status that it
-- had or is pending, and no other pair's status changes; the receiver's session, if there is one,
-- is sent the request under the name of the sender, if the sender has one, nobody else is sent
-- anything, and the session map stays as it is. The engine works, the pool is healthy and the
-- look-up of the name returns.
pub add_friend-asks :
    (env : Env) (msg : Message) (s : State) (db : Db) (name : Option Bytes) (c d : Bytes)
    → Works env.engine
    → IsHealthy s.db
    → msg.from_user_id ≢ msg.to_user_id
    → get_user_name_by_id env.engine
        (to_string msg.from_user_id)
        (with_rows s (
          both_ways (to_string msg.from_user_id) (to_string msg.to_user_id) s.db.tables.friends)).db
      ≡ (db, ok name)
    → let a = to_string msg.from_user_id in
      let b = to_string msg.to_user_id in
      let s' = (add_friend env msg s).0 in
      (status_of c d s'.db.tables.friends ≡ (
        if same_pair a b c d || same_pair b a c d
        then or_else (status_of c d s.db.tables.friends) (some 0)
        else status_of c d s.db.tables.friends))
      × (s'.effects ≡ s.effects ++ notice env msg name (find msg.to_user_id s.sessions))
      × (s'.sessions ≡ s.sessions)
add_friend-asks env msg s db name c d w h differ named =
    let a = to_string msg.from_user_id in
    let b = to_string msg.to_user_id in
    let old = s.db.tables.friends in
    let kept : db.tables.friends ≡ both_ways a b old =
      ap (λ r. r.0.tables.friends) (sym named)
      ∙ ap (λ (t : Tables). t.friends)
          (get_user_name_by_id-tables env.engine a (with_rows s (both_ways a b old)).db) in
    let ran = add_friend-requests env msg s db name w h differ named in
    (
      ap (λ r. status_of c d r.0.db.tables.friends) ran
          ∙ ap (status_of c d) kept
          ∙ both_ways-status_of a b c d old,
      ap (λ r. r.0.effects) ran,
      ap (λ r. r.0.sessions) ran,
    )
