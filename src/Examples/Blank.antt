-- ===== src/Examples/Blank.antt =====
-- A database with empty tables and two open connections, and a server on which nobody is logged in.
use tiny_im.Prelude.{refl, [], none, arith}
use tiny_im.Database.Schema.{no_rows}
use tiny_im.Database.Pool.{Db}
use tiny_im.Database.Pool.Frame.{left}
use tiny_im.Database.Contract.{View, Represents}
use tiny_im.Examples.World.{connections}

abbrev pub no_view : View
no_view = record {
  account = λ id. none;
  status = λ a b. none;
  kept_of = λ id. [];
  talk = [];
  sequence = 0;
}

abbrev pub new_db : Db
new_db = left no_rows connections

pub new_db-Represents : Represents new_db no_view
new_db-Represents = record {
  healthy = record { some_left = omega arith; all_open = (refl, (refl, tt)) };
  shows = record {
    accounts = λ id. refl;
    pairs = λ a b. refl;
    kept_all = λ id. refl;
    talk_all = refl;
    sequence_all = refl;
  };
}
