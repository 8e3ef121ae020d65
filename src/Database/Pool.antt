-- ===== src/Database/Pool.antt =====
-- The connection pool: `DatabaseConnection`, `Database::init`, `Database::getConnection`, and the
-- frame that every query puts round its statement.
pub mod Frame
use tiny_im.Prelude.{
  ℕ, zero, suc, ◌+◌, Bool, true, false, ◌&&◌, List, [], ◌∷◌, ◌++◌, Option, none, some,
  if◌then◌else◌,
}
use tiny_im.Prelude.Int.{ℤ, pos, negsuc}
use tiny_im.Database.Schema.{Tables, Statement}
use tiny_im.Database.Engine.{Engine}

-- `opened` is false where `sqlite3_open` failed and the constructor set `db_` to null.
pub record Connection : Type 0 where
  pub number : ℕ
  pub opened : Bool

pub record Db : Type 0 where
  pub tables : Tables
  pub pool : List Connection

-- How a call ends: it returns, it throws, or it waits on the condition variable for ever. The
-- server runs every handler on one thread, so nobody else returns a connection meanwhile.
pub data Result {ℓ} (A : Type ℓ) : Type ℓ where
  ok : A → Result A
  threw : Result A
  blocked : Result A

connect : Engine → ℕ → Connection
connect e n = record { number = n; opened = e.opens n }

init_loop : Engine → ℕ → ℕ → List Connection → List Connection
unfolding connect
init_loop e zero i pool = pool
init_loop e (suc rounds) i pool = init_loop e rounds (i + 1) (pool ++ connect e i ∷ [])

-- The rounds of `for (int i = 0; i < pool_size; ++i)`.
unfoldable pub rounds : ℤ → ℕ
rounds (pos n) = n
rounds (negsuc n) = 0

unfoldable pub init : Engine → ℤ → Db → Db
unfolding init_loop rounds
init e pool_size db = record db { pool = init_loop e (rounds pool_size) 0 db.pool }

-- The front of the queue leaves it; an empty queue makes the caller wait.
unfoldable pub get_connection : Db → Option (Connection × Db)
get_connection db = elim db.pool [ [] ↦ none | c ∷ rest ↦ some (c, record db { pool = rest }) ]

-- `connection_pool_.push(conn)`.
unfoldable pub release : Connection → Db → Db
release c db = record db { pool = db.pool ++ c ∷ [] }

-- `sqlite3_prepare_v2` refuses a null handle.
unfoldable pub prepare : Engine → Connection → Statement → Tables → Bool
prepare e c s t = c.opened && e.prepares t s

module _ {ℓ} {A : Type ℓ} where
  -- What is left of a query once its rows are read or written: none is an exception, which skips
  -- the push.
  finish : Connection → Db → Tables × Option A → Db × Result A
  unfolding release
  finish c db (t, some a) = (release c (record db { tables = t }), ok a)
  finish c db (t, none) = (record db { tables = t }, threw)

  attempt : Engine → Statement → A → (Tables → Tables × Option A) → Connection → Db → Db × Result A
  unfolding prepare finish
  attempt e s failed run c db =
      if prepare e c s db.tables then finish c db (run db.tables) else (db, ok failed)

  -- Take a connection, prepare `s`, run it, push the connection back. A statement that cannot be
  -- prepared returns `failed` at once, and the connection is not pushed.
  unfoldable pub query : Engine → Statement → A → (Tables → Tables × Option A) → Db → Db × Result A
  unfolding get_connection attempt
  query e s failed run db = elim (get_connection db) [
    | none ↦ (db, blocked)
    | some (c, db') ↦ attempt e s failed run c db'
  ]
