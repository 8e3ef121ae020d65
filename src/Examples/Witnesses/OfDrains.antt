-- ===== src/Examples/Witnesses/OfDrains.antt =====
-- A server on which a request and a group message arrive, and one whose connection is not open.
use tiny_im.Prelude.{◌+◌, ◌≤◌, ◌≡◌, refl, ◌⊎◌, false, List, [], ◌∷◌, none, arith, length, codes}
use tiny_im.Prelude.Int.{pos}
use tiny_im.Message.Types.{login, text, add_friend, group_chat}
use tiny_im.Database.Pool.{blocked}
use tiny_im.Database.Pool.Frame.{left}
use tiny_im.Handler.State.{State, find}
use tiny_im.Handler.Dispatch.{handle_incoming_message}
use tiny_im.Handler.Dispatch.Keeps.{Event, arrives, disconnects, handle_all}
use tiny_im.Handler.Dispatch.Scripts.{handle_all-length}
use tiny_im.Handler.Dispatch.Drains.{handle_all-drains, handle_all-shut_out}
use tiny_im.Examples.Codec.{codec}
use tiny_im.Examples.World.{env, tables, message, state}
use tiny_im.Examples.Witnesses.OfHandler.{keys_unique}

abbrev requests : List Event
requests =
    arrives env 1 (message 111 222 add_friend [])
    ∷ arrives env 1 (message 111 0 group_chat (codes "hi"))
    ∷ []

handle_all-length_example :
    let p = (handle_all codec state requests).db.pool in (length p ≤ 2) × (2 ≤ length p + 2)
handle_all-length_example = handle_all-length codec state requests

-- The one connection of the pool could not be opened; users 111 and 222 are logged in.
abbrev closed_state : State
closed_state = record state { db = left tables (record { number = 0; opened = false } ∷ []) }

abbrev chats : List Event
chats = arrives env 1 (message 111 222 text (codes "hi")) ∷ disconnects 1 ∷ []

handle_all-drains_example :
    let spent = handle_all codec closed_state chats in
    (spent.db ≡ left tables [])
    × (handle_incoming_message codec env 3 (message 111 0 login (codes "pw")) spent
        ≡ (spent, blocked))
handle_all-drains_example =
    handle_all-drains codec closed_state chats env 3 (message 111 0 login (codes "pw")) (refl, tt)
      (omega arith) (omega arith)

handle_all-shut_out_example :
    let s' = handle_all codec closed_state chats in
    (s'.db.tables ≡ tables)
    × ((find (pos 111) s'.sessions ≡ none)
        ⊎ (find (pos 111) s'.sessions ≡ find (pos 111) closed_state.sessions))
handle_all-shut_out_example =
    handle_all-shut_out codec closed_state chats (pos 111) keys_unique (refl, tt)
