-- ===== src/Handler/Runs.antt =====
-- One step of a run, where the result of its first action is known.
use tiny_im.Prelude.{◌≡◌, ap, Option, some}
use tiny_im.Prelude.Int.{ℤ}
use tiny_im.Database.Pool.{Db, Result, ok, blocked}
use tiny_im.Handler.State.{SessionId, State, find, M, bind, ◌>>=◌, ask, or_throw, lookup_session}

module _ {A B : Type 0} where
  pub run-ask :
      (q : Db → Db × Result A) (f : A → M B) (s : State) (db : Db) (a : A)
      → q s.db ≡ (db, ok a)
      → (ask q >>= f) s ≡ f a (record s { db = db })
  unfolding ◌>>=◌ ask
  run-ask q f s db a h = ap (λ (r : Db × Result A). bind (record s { db = r.0 }, r.1) f) h

  -- A query that waits for ever.
  pub run-blocked :
      (q : Db → Db × Result A) (f : A → M B) (s : State)
      → q s.db ≡ (s.db, blocked)
      → (ask q >>= f) s ≡ (s, blocked)
  unfolding ◌>>=◌ ask bind
  run-blocked q f s h = ap (λ (r : Db × Result A). bind (record s { db = r.0 }, r.1) f) h

  pub run-or_throw :
      (o : Option A) (f : A → M B) (s : State) (a : A) → o ≡ some a → (or_throw o >>= f) s ≡ f a s
  unfolding ◌>>=◌ or_throw
  run-or_throw o f s a h = ap (λ x. (or_throw x >>= f) s) h

module _ {B : Type 0} where
  pub run-lookup :
      (k : ℤ) (f : Option SessionId → M B) (s : State) (o : Option SessionId)
      → find k s.sessions ≡ o
      → (lookup_session k >>= f) s ≡ f o s
  unfolding ◌>>=◌ lookup_session
  run-lookup k f s o h = ap (λ x. f x s) h
