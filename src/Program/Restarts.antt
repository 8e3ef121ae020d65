-- ===== src/Program/Restarts.antt =====
-- What a restart of the server leaves in the connection pool.
use tiny_im.Prelude.{
  ℕ, suc, ◌+◌, ◌*◌, ◌≡◌, refl, ap, ◌∙◌, true, false, List, [], ◌∷◌, some, arith, length, All,
}
use tiny_im.Message.Json.{JsonLib}
use tiny_im.Database.Engine.{Engine}
use tiny_im.Database.Pool.{Db, rounds}
use tiny_im.Prelude.Int.{ℤ, pos, negsuc}
use tiny_im.Handler.State.{State}
use tiny_im.Database.Pool.Frame.{length-init}
use tiny_im.Config.{Config}
use tiny_im.Server
use tiny_im.Server.{Server}
use tiny_im.Program.{construct, db_of, Round, refused, serves, round, main_loop}

-- No message is read and no connection is closed by the server.
abbrev pub IsIdle : Server.Event → Type 0
IsIdle (Server.handshake session success) = Unit
IsIdle (Server.fails session) = Unit
IsIdle _ = ⊥

abbrev pub IsIdleRound : Round → Type 0
IsIdleRound refused = Unit
IsIdleRound (serves events) = All IsIdle events

-- How many servers were made.
abbrev pub servers : List Round → ℕ
servers [] = 0
servers (refused ∷ rs) = servers rs
servers (serves events ∷ rs) = suc (servers rs)

-- How many connections a size asks for.
abbrev pub wanted : ℤ → ℕ
wanted (pos n) = n
wanted (negsuc n) = 0

rounds-wanted : (size : ℤ) → rounds size ≡ wanted size
unfolding rounds
rounds-wanted (pos n) = refl
rounds-wanted (negsuc n) = refl

run-handler :
    (lib : JsonLib) (events : List Server.Event) (s : Server)
    → All IsIdle events
    → (s' : Server) × (Server.run lib events (some s) ≡ some s') × (s'.handler ≡ s.handler)
unfolding Server.run Server.step Server.stop Server.remove_session
run-handler lib [] s h = (s, refl, refl)
run-handler lib (Server.handshake session true ∷ es) s h =
    run-handler lib es (record s { sessions = Server.add session s.sessions }) h.1
run-handler lib (Server.handshake session false ∷ es) s h = run-handler lib es s h.1
run-handler lib (Server.reads env session text ∷ es) s h = absurd h.0
run-handler lib (Server.fails session ∷ es) s h = run-handler lib es (Server.stop session s) h.1
run-handler lib (Server.closed session ∷ es) s h = absurd h.0

suc_mul : (k n : ℕ) → suc k * n ≡ n + k * n
suc_mul k n = grind arith

module _ (lib : JsonLib) (e : Engine) (c : Config) where
  length-round :
      (events : List Server.Event) (db : Db)
      → All IsIdle events
      → (db' : Db) × (round lib e c db (serves events) ≡ some db')
        × (length db'.pool ≡ length db.pool + wanted c.connection_size)
  unfolding round construct
  length-round events db h =
      let (s', ran, kept) = run-handler lib events (construct e c db) h in
      (
        s'.handler.db,
        ap db_of ran,
        ap (λ (s : State). length s.db.pool) kept
            ∙ length-init e c.connection_size db
            ∙ ap (λ n. length db.pool + n) (rounds-wanted c.connection_size),
      )

  -- If no server of the main loop reads a message or completes a close, the loop goes on, and the
  -- pool of the one database holds what it held before and connection_size connections for each
  -- server that was made: a restart adds another set and takes none away. A connection_size below
  -- zero counts as zero.
  pub main_loop-pool :
      (rs : List Round) (db : Db)
      → All IsIdleRound rs
      → (later : Db) × (main_loop lib e c (some db) rs ≡ some later)
        × (length later.pool ≡ length db.pool + servers rs * wanted c.connection_size)
  unfolding main_loop round
  main_loop-pool [] db h = (db, refl, grind arith)
  main_loop-pool (refused ∷ rs) db h = main_loop-pool rs db h.1
  main_loop-pool (serves events ∷ rs) db h =
      let (db', ran, one) = length-round events db h.0 in
      let (later, rest, all) = main_loop-pool rs db' h.1 in
      (
        later,
        ap (λ o. main_loop lib e c o rs) ran ∙ rest,
        omega (arith, one, all, suc_mul (servers rs) (wanted c.connection_size)),
      )
