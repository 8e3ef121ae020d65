-- ===== src/Examples/Witnesses/OfProgram.antt =====
-- Start-up with a configuration that lacks its last member, restarts, and the statistics of a process.
use tiny_im.Prelude.{
  ◌+◌, ◌*◌, ◌≡◌, refl, true, List, [], ◌∷◌, Option, none, some, if◌then◌else◌, length, Bytes, codes,
  same, arith,
}
use tiny_im.Prelude.Int.{ℤ, pos}
use tiny_im.Database.Pool.{Db}
use tiny_im.Config.{ConfigLib, Config, load_config}
use tiny_im.Config.Fields.{Loaded, load_config-Loaded}
use tiny_im.Program.{Round, refused, serves, main_loop}
use tiny_im.Program.Restarts.{main_loop-pool}
use tiny_im.Server
use tiny_im.Utils.{split}
use tiny_im.Utils.Stats.{out_of_range, first_line, print_process_stats}
use tiny_im.Utils.Stats.Guard.{print_process_stats-cases}
use tiny_im.Examples.Codec.{codec}
use tiny_im.Examples.World.{engine, db}

-- A file is one text, which is the value of every key but `connection_size`.
abbrev config_lib : ConfigLib
config_lib = record {
  Json = Bytes;
  read = some;
  at_int = λ j k. if same k (codes "port") then some (pos 8080) else none;
  at_text = λ j k. some j;
}

abbrev unset : Config
unset = record { port = pos 7; db_name = []; host = []; log_level = []; connection_size = pos 2 }

load_config-Loaded_example :
    Loaded
      (config_lib.at_int (codes "info") (codes "port"))
      (config_lib.at_text (codes "info") (codes "db_name"))
      (config_lib.at_text (codes "info") (codes "host"))
      (config_lib.at_text (codes "info") (codes "log_level"))
      (config_lib.at_int (codes "info") (codes "connection_size"))
      unset
      (load_config config_lib (some (codes "info")) unset)
load_config-Loaded_example = load_config-Loaded config_lib (codes "info") (codes "info") unset refl

abbrev lives : List Round
lives = serves (Server.handshake 1 true ∷ []) ∷ refused ∷ serves [] ∷ []

main_loop-pool_example :
    (later : Db) × (main_loop codec engine unset (some db) lives ≡ some later)
    × (length later.pool ≡ length db.pool + 2 * 2)
main_loop-pool_example = main_loop-pool codec engine unset lives db ((tt, tt), (tt, (tt, tt)))

-- A line of 22 tokens.
abbrev line : Bytes
line = codes "1 (im) S 1 1 1 0 1 1 1 1 1 1 5 6 1 1 1 1 1 1 1"

-- A reading of numbers that takes every text.
abbrev some_number : Bytes → Option ℤ
some_number t = some (pos (length t))

print_process_stats-cases_example : print_process_stats some_number (some line) ≡ out_of_range
unfolding first_line split
print_process_stats-cases_example =
    (print_process_stats-cases some_number line (split (first_line line) 32) refl
        (λ i t _ _. (pos (length t), refl))).1
      (omega arith) (omega arith)
