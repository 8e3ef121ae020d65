-- ===== src/Config.antt =====
-- inc/Config.h: `loadConfig`, which assigns one member after another.
pub mod Fields
use tiny_im.Prelude.{Bool, List, [], ◌∷◌, Option, none, some, Bytes, codes}
use tiny_im.Prelude.Int.{ℤ}

-- `file >> json`, and `json.at(key)` converted to `int` and to `std::string`. An exception is `none`:
-- a text that is no JSON, a key that is missing, a value of another type.
pub record ConfigLib : Type 1 where
  pub Json : Type 0
  pub read : Bytes → Option Json
  pub at_int : Json → Bytes → Option ℤ
  pub at_text : Json → Bytes → Option Bytes

pub record Config : Type 0 where
  pub port : ℤ
  pub db_name : Bytes
  pub host : Bytes
  pub log_level : Bytes
  pub connection_size : ℤ

-- Each assignment is made if its value could be read; the first that could not ends the `try`.
load_connection_size : Option ℤ → Config → Config
load_connection_size none c = c
load_connection_size (some n) c = record c { connection_size = n }

load_log_level : Option Bytes → Option ℤ → Config → Config
unfolding load_connection_size
load_log_level none size c = c
load_log_level (some level) size c = load_connection_size size (record c { log_level = level })

load_host : Option Bytes → Option Bytes → Option ℤ → Config → Config
unfolding load_log_level
load_host none level size c = c
load_host (some host) level size c = load_log_level level size (record c { host = host })

load_db_name : Option Bytes → Option Bytes → Option Bytes → Option ℤ → Config → Config
unfolding load_host
load_db_name none host level size c = c
load_db_name (some name) host level size c = load_host host level size (record c { db_name = name })

load_port : Option ℤ → Option Bytes → Option Bytes → Option Bytes → Option ℤ → Config → Config
unfolding load_db_name
load_port none name host level size c = c
load_port (some port) name host level size c =
    load_db_name name host level size (record c { port = port })

module _ (lib : ConfigLib) where
  open lib use {Json, read, at_int, at_text}

  load_json : Option Json → Config → Config
  unfolding load_port
  load_json none c = c
  load_json (some j) c =
      load_port (at_int j (codes "port")) (at_text j (codes "db_name")) (at_text j (codes "host"))
        (at_text j (codes "log_level")) (at_int j (codes "connection_size")) c

  -- `none` is a file that cannot be opened. The members start as the constructor leaves them: the
  -- texts empty, the two ints uninitialised.
  unfoldable pub load_config : Option Bytes → Config → Config
  unfolding load_json
  load_config none c = c
  load_config (some file) c = load_json (read file) c
