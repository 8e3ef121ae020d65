-- ===== src/Examples/Witnesses/OfServer.antt =====
-- A user whose connection breaks, and who comes back on another one.
use tiny_im.Prelude.{◌≡◌, refl, false, [], ◌∷◌, some, arith, Bytes, codes}
use tiny_im.Prelude.Int.{pos, same_int}
use tiny_im.Message.{Message, from_json}
use tiny_im.Message.Types.{login}
use tiny_im.Handler.State.{find, sends}
use tiny_im.Handler.Account.Login.{response, told, with_db}
use tiny_im.Server.{Server, has, reads, fails, run}
use tiny_im.Server.Endings.{fails-locks_out}
use tiny_im.Database.Pool.Frame.{left, rotate}
use tiny_im.Examples.Codec.{codec, text_of, from_json-text_of}
use tiny_im.Examples.World.{env, state, tables, connections, message}
use tiny_im.Examples.Witnesses.OfHandler.{right_password, failure}

-- User 111 is logged in on connection 1.
abbrev server : Server
server = record { sessions = 1 ∷ []; handler = state }

abbrev again : Message
again = message 111 0 login (codes "=")

abbrev login_text : Bytes
login_text = text_of again

login_read : from_json codec login_text ≡ some again
login_read = from_json-text_of again (omega arith)

fails-locks_out_example :
    (s' : Server) × (run codec (fails 1 ∷ reads env 7 login_text ∷ []) (some server) ≡ some s')
    × (has 1 s'.sessions ≡ false)
    × (s'.handler
        ≡ told codec env
            (with_db codec env state (left tables (rotate connections)))
            (sends 7 (response codec env (pos 111) failure)))
fails-locks_out_example =
    fails-locks_out codec env 1 7 login_text again (codes "ann") failure
      (left tables (rotate connections)) server login_read refl (unfold find same_int in refl)
      right_password (unfold codec failure in refl)
