-- ===== src/Program.antt =====
-- src/main.cpp and the constructors of `Server` and `BusinessHandler`: start-up and the loop that
-- makes one server after another on the one `Database`.
pub mod Restarts
use tiny_im.Prelude.{ℕ, ◌-◌, ◌%◌, List, [], ◌∷◌, Option, none, some, Bytes}
use tiny_im.Prelude.Int.{ℤ, pos, negsuc}
use tiny_im.Message.Json.{JsonLib}
use tiny_im.Database.Engine.{Engine}
use tiny_im.Database.Pool.{Db, init}
use tiny_im.Config.{ConfigLib, Config, load_config}
use tiny_im.Log.{LogLevel, set_log_level}
use tiny_im.Server
use tiny_im.Server.{Server}

-- `int` to `unsigned short`, the type of a port.
unfoldable pub to_port : ℤ → ℕ
to_port (pos n) = n % 65536
to_port (negsuc n) = 65535 - n % 65536

-- What `main` sets up before its loop.
pub record Setup : Type 0 where
  pub config : Config
  pub level : LogLevel
  pub port : ℕ

unfoldable pub set_up : ConfigLib → Option Bytes → Config → Setup
unfolding to_port
set_up lib file old =
    let c = load_config lib file old in
    record { config = c; level = set_log_level c.log_level; port = to_port c.port }

-- `Server`'s constructor makes a handler, whose constructor calls `init`.
unfoldable pub construct : Engine → Config → Db → Server
construct e c db = record {
  sessions = [];
  handler = record { sessions = []; db = init e c.connection_size db; effects = [] };
}

-- One round of `while (true)`: the acceptor cannot be made, which throws before there is a handler,
-- or the server runs until an exception.
pub data Round : Type 0 where
  refused : Round
  serves : List Server.Event → Round

abbrev db_of : Option Server → Option Db
db_of none = none
db_of (some s) = some s.handler.db

-- The database outlives the server of a round. A server that waits for ever ends no round.
unfoldable pub round : JsonLib → Engine → Config → Db → Round → Option Db
unfolding construct
round lib e c db refused = some db
round lib e c db (serves events) = db_of (Server.run lib events (some (construct e c db)))

unfoldable pub main_loop : JsonLib → Engine → Config → Option Db → List Round → Option Db
main_loop lib e c db [] = db
main_loop lib e c none (r ∷ rs) = none
main_loop lib e c (some db) (r ∷ rs) = main_loop lib e c (round lib e c db r) rs
