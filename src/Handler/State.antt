-- ===== src/Handler/State.antt =====
-- The handler's state, its map from users to sessions, and the monad in which its functions run:
-- what is done before an exception or before a wait that does not end stays done.
use tiny_im.Prelude.{ℕ, not, List, [], ◌∷◌, ◌++◌, Option, none, some, if◌then◌else◌, select, Bytes}
use tiny_im.Prelude.Int.{ℤ, same_int}
use tiny_im.Message.{Message}
use tiny_im.Database.Engine.{Engine}
use tiny_im.Database.Pool.{Db, Result, ok, threw, blocked}
use tiny_im.Database.Credentials.{Random}

-- A session is known by a number: the identity of the shared pointer.
abbrev pub SessionId : Type 0
SessionId = ℕ

-- What the handler asks of a session: `send` and `close`.
pub data Effect : Type 0 where
  sends : SessionId → Message → Effect
  closes : SessionId → Effect

-- `userSessions_`, the database, and what was asked of sessions, oldest first.
pub record State : Type 0 where
  pub sessions : List (ℤ × SessionId)
  pub db : Db
  pub effects : List Effect

-- What one run of a handler takes from outside: SQLite, SHA256, the random sources, the clock,
-- the value that an uninitialised `int` happens to hold, and the order in which a loop over the
-- std::unordered_map visits its entries.
pub record Env : Type 0 where
  pub engine : Engine
  pub sha256 : Bytes → Bytes
  pub random : Random
  pub now : ℕ
  pub garbage : ℤ
  pub visits : List (ℤ × SessionId) → List (ℤ × SessionId)

module _ {ℓ} {V : Type ℓ} where
  -- `find` on an std::unordered_map<int, V>.
  unfoldable pub find : ℤ → List (ℤ × V) → Option V
  find k [] = none
  find k ((j, v) ∷ m) = if same_int j k then some v else find k m

  -- `erase` of a key.
  unfoldable pub erase : ℤ → List (ℤ × V) → List (ℤ × V)
  erase k m = select (λ (e : ℤ × V). not (same_int e.0 k)) m

  -- `map[k] = v`: the value of a key that is there is replaced.
  unfoldable pub insert : ℤ → V → List (ℤ × V) → List (ℤ × V)
  insert k v [] = (k, v) ∷ []
  insert k v ((j, u) ∷ m) = if same_int j k then (k, v) ∷ m else (j, u) ∷ insert k v m

abbrev pub M : Type 0 → Type 0
M A = State → State × Result A

unfoldable pub bind : {A B : Type 0} → State × Result A → (A → M B) → State × Result B
bind (s, ok a) f = f a s
bind (s, threw) f = (s, threw)
bind (s, blocked) f = (s, blocked)

infixl 5 ◌>>=◌ ◌>>◌
unfoldable pub ◌>>=◌ : {A B : Type 0} → M A → (A → M B) → M B
unfolding bind
◌>>=◌ m f s = bind (m s) f

unfoldable pub ◌>>◌ : {B : Type 0} → M (Unit {0}) → M B → M B
unfolding ◌>>=◌
◌>>◌ m k = m >>= λ _. k

unfoldable pub pure : {A : Type 0} → A → M A
pure a s = (s, ok a)

-- A query of the database.
unfoldable pub ask : {A : Type 0} → (Db → Db × Result A) → M A
ask q s = let r = q s.db in (record s { db = r.0 }, r.1)

-- A library call that throws on `none`.
unfoldable pub or_throw : {A : Type 0} → Option A → M A
or_throw none s = (s, threw)
or_throw (some a) s = (s, ok a)

unfoldable pub emit : Effect → M (Unit {0})
emit x s = (record s { effects = s.effects ++ x ∷ [] }, ok tt)

unfoldable pub lookup_session : ℤ → M (Option SessionId)
lookup_session k s = (s, ok (find k s.sessions))

unfoldable pub set_sessions : (List (ℤ × SessionId) → List (ℤ × SessionId)) → M (Unit {0})
set_sessions f s = (record s { sessions = f s.sessions }, ok tt)
