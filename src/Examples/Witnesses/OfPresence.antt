-- ===== src/Examples/Witnesses/OfPresence.antt =====
-- User 111 logs in, and what is then known of the session map.
use tiny_im.Prelude.{◌≡◌, refl, ap, ◌∙◌, List, [], ◌∷◌, some, codes}
use tiny_im.Prelude.Int.{pos, same_int}
use tiny_im.Message.{Message}
use tiny_im.Message.Types.{login}
use tiny_im.Database.Pool.Frame.{left, rotate}
use tiny_im.Handler.State.{find, insert}
use tiny_im.Handler.Account.Login.{login_user-enters}
use tiny_im.Handler.Dispatch.{dispatch, handle_incoming_message}
use tiny_im.Handler.Dispatch.Keeps.{Event, arrives, handle, handle_all}
use tiny_im.Handler.Presence.{Permits, presence, handle-Permits}
use tiny_im.Handler.Presence.History.{LoggedIn, handle_all-LoggedIn}
use tiny_im.Examples.Codec.{codec}
use tiny_im.Examples.World.{env, tables, connections, message, state}
use tiny_im.Examples.Witnesses.OfHandler.{right_password, success, nobody_in, keys_unique}

abbrev entry : Message
entry = message 111 0 login (codes "=")

abbrev history : List Event
history = arrives env 7 entry ∷ []

entered : find (pos 111) (handle_all codec nobody_in history).sessions ≡ some 7
unfolding handle_all handle handle_incoming_message dispatch
entered =
    ap (λ r. find (pos 111) r.0.sessions)
      (login_user-enters codec env entry 7 nobody_in (left tables (rotate connections)) success
        (codes "ann") (unfold nobody_in in right_password) (unfold find nobody_in in refl)
        (unfold codec success in refl))
    ∙ unfold find insert same_int nobody_in in refl

handle-Permits_example :
    Permits
      (arrives env 7 entry)
      state.db
      (presence state)
      (presence (handle codec state (arrives env 7 entry)))
handle-Permits_example = handle-Permits codec state (arrives env 7 entry) keys_unique

handle_all-LoggedIn_example : LoggedIn codec (pos 111) 7 nobody_in history
handle_all-LoggedIn_example =
    handle_all-LoggedIn codec (pos 111) 7 nobody_in history (unfold nobody_in in refl) entered
