-- ===== src/Database/Pool/Frame.antt =====
-- What `query` does with the connection and with the tables.
use tiny_im.Prelude.{
  ℕ, zero, suc, ◌+◌, ◌<◌, ◌≡◌, refl, ap, ◌∙◌, true, false, ◌&&◌, List, [], ◌∷◌, ◌++◌, Option, none,
  some, if◌then◌else◌, length, length-append, All, All-append, arith, inl, inr, ◌⊎◌, Bool-cases,
}
use tiny_im.Prelude.Int.{ℤ}
use tiny_im.Database.Schema.{Tables, Statement}
use tiny_im.Database.Engine.{Engine, Works}
use tiny_im.Database.Pool.{
  connect, init_loop, rounds, init, Connection, Db, Result, ok, threw, blocked, query, attempt,
  finish, prepare, release, get_connection,
}

abbrev pub AllOpen : List Connection → Type 0
AllOpen = All (λ c. c.opened ≡ true)

-- There is a connection, and each one is open.
pub record IsHealthy (db : Db) : Type 0 where
  pub some_left : 0 < length db.pool
  pub all_open : AllOpen db.pool

-- The result of a query whose rows were read or written.
abbrev pub outcome {ℓ} : {A : Type ℓ} → Option A → Result A
outcome (some a) = ok a
outcome none = threw

abbrev pub rotate : List Connection → List Connection
rotate [] = []
rotate (c ∷ rest) = rest ++ c ∷ []

abbrev pub drop_front : List Connection → List Connection
drop_front [] = []
drop_front (c ∷ rest) = rest

-- A pool before and after a query.
abbrev pub Kept : List Connection → List Connection → Type 0
Kept p q = (q ≡ rotate p) ⊎ (q ≡ drop_front p)

rotate-IsHealthy :
    (t : Tables) (p : List Connection)
    → 0 < length p
    → AllOpen p
    → IsHealthy (record { tables = t; pool = rotate p })
rotate-IsHealthy t [] h o = elim h [ ]
rotate-IsHealthy t (c ∷ rest) h o = record {
  some_left = rw (length-append rest (c ∷ [])) (omega arith);
  all_open = All-append _ rest (c ∷ []) o.1 (o.0, tt);
}

pub IsHealthy-rotate :
    (t : Tables) (db : Db) → IsHealthy db → IsHealthy (record { tables = t; pool = rotate db.pool })
IsHealthy-rotate t db h = rotate-IsHealthy t db.pool h.some_left h.all_open

abbrev pub left : Tables → List Connection → Db
left t p = record { tables = t; pool = p }

module _ {ℓ} {A : Type ℓ} (e : Engine) (s : Statement) (failed : A)
    (run : Tables → Tables × Option A) where
  query-healthy_pool :
      (w : Works e) (t t' : Tables) (p : List Connection) (a : A)
      → 0 < length p
      → AllOpen p
      → run t ≡ (t', some a)
      → query e s failed run (record { tables = t; pool = p })
        ≡ (record { tables = t'; pool = rotate p }, ok a)
  unfolding query attempt prepare get_connection finish release
  query-healthy_pool w t t' [] a h o r = elim h [ ]
  query-healthy_pool w t t' (c ∷ rest) a h o r =
      ap
        (λ b.
          if b && e.prepares t s then finish c (left t rest) (run t) else (left t rest, ok failed))
        o.0
      ∙ ap (λ b. if b then finish c (left t rest) (run t) else (left t rest, ok failed))
          (w.prepares_all t s)
      ∙ ap (finish c (left t rest)) r

  -- A query on a healthy pool reads or writes its rows, returns, and puts its connection back.
  pub query-healthy :
      (w : Works e) (db : Db) (t' : Tables) (a : A)
      → IsHealthy db
      → run db.tables ≡ (t', some a)
      → query e s failed run db ≡ (record { tables = t'; pool = rotate db.pool }, ok a)
  query-healthy w db t' a h r = query-healthy_pool w db.tables t' db.pool a h.some_left h.all_open r

  finish-pool :
      (c : Connection) (rest : List Connection) (t t' : Tables) (o : Option A)
      → ((finish c (left t rest) (t', o)).0.pool ≡ rest ++ c ∷ [])
        ⊎ ((finish c (left t rest) (t', o)).0.pool ≡ rest)
  unfolding finish release
  finish-pool c rest t t' none = inr refl
  finish-pool c rest t t' (some a) = inl refl

  query-pool_cases :
      (t : Tables) (p : List Connection)
      → let q = query e s failed run (record { tables = t; pool = p }) in
        (q.0.pool ≡ rotate p) ⊎ (q.0.pool ≡ drop_front p)
  unfolding query attempt prepare get_connection finish release
  query-pool_cases t [] = inl refl
  query-pool_cases t (c ∷ rest) = elim (Bool-cases (c.opened && e.prepares t s)) [
    | inl y ↦ rw y (finish-pool c rest t (run t).0 (run t).1)
    | inr n ↦ rw n (inr refl)
  ]

  -- With no connection a query waits for ever and changes nothing.
  pub query-blocked : (db : Db) → db.pool ≡ [] → query e s failed run db ≡ (db, blocked)
  unfolding query get_connection
  query-blocked db h = rw (h, get_connection)

  pub query-closed :
      (t : Tables) (c : Connection) (rest : List Connection)
      → c.opened ≡ false
      → query e s failed run (record { tables = t; pool = c ∷ rest })
        ≡ (record { tables = t; pool = rest }, ok failed)
  unfolding query attempt prepare get_connection
  query-closed t c rest h = rw h

  -- No query adds a connection: it puts the one that it took at the back, or loses it.
  pub query-Kept : (db : Db) → Kept db.pool (query e s failed run db).0.pool
  query-Kept db = query-pool_cases db.tables db.pool

module _ {ℓ κ} {A : Type ℓ} (e : Engine) (s : Statement) (failed : A)
    (run : Tables → Tables × Option A) (P : Tables → Type κ) where
  finish-tables :
      (c : Connection) (rest : List Connection) (t t' : Tables) (o : Option A)
      → P t'
      → P (finish c (left t rest) (t', o)).0.tables
  unfolding finish release
  finish-tables c rest t t' none h = h
  finish-tables c rest t t' (some a) h = h

  query-tables_pool :
      (t : Tables) (p : List Connection)
      → P t
      → P (run t).0
      → P (query e s failed run (left t p)).0.tables
  unfolding query attempt prepare get_connection
  query-tables_pool t [] h k = h
  query-tables_pool t (c ∷ rest) h k = elim (Bool-cases (c.opened && e.prepares t s)) [
    | inl y ↦ rw y (finish-tables c rest t (run t).0 (run t).1 k)
    | inr n ↦ rw n h
  ]

  -- However a query ends, the tables are as before or as its statement leaves them.
  pub query-tables :
      (db : Db) → P db.tables → P (run db.tables).0 → P (query e s failed run db).0.tables
  query-tables db h k = query-tables_pool db.tables db.pool h k

length-init_loop :
    (e : Engine) (n i : ℕ) (pool : List Connection)
    → length (init_loop e n i pool) ≡ length pool + n
unfolding init_loop
length-init_loop e zero i pool = omega arith
length-init_loop e (suc n) i pool = omega (
  arith,
  length-init_loop e n (i + 1) (pool ++ connect e i ∷ []),
  length-append pool (connect e i ∷ []),
)

-- `init` adds to the pool, also to one that is in use.
pub length-init :
    (e : Engine) (size : ℤ) (db : Db) → length (init e size db).pool ≡ length db.pool + rounds size
unfolding init
length-init e size db = length-init_loop e (rounds size) 0 db.pool
