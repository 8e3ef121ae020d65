-- ===== src/Handler/Keeps.antt =====
-- Properties of the session map and of the effects that a run of the monad keeps.
use tiny_im.Prelude.{Option, none, some}
use tiny_im.Prelude.Int.{ℤ}
use tiny_im.Database.Pool.{Db, Result, ok, threw, blocked}
use tiny_im.Handler.State.{
  Effect, State, M, bind, set_sessions, ◌>>=◌, ◌>>◌, pure, ask, or_throw, emit, lookup_session,
}
use tiny_im.Handler.Sessions.{SessionMap}

-- Whatever way a run ends, the session map it leaves has the property if the one before had it.
pub record Keeps (P : SessionMap → Type 0) {A : Type 0} (m : M A) : Type 0 where
  pub kept : (s : State) → P s.sessions → P (m s).0.sessions

module _ (P : SessionMap → Type 0) {A : Type 0} where
  pub Keeps-pure : (a : A) → Keeps P (pure a)
  unfolding pure
  Keeps-pure a = record { kept = λ s h. h }

  pub Keeps-ask : (q : Db → Db × Result A) → Keeps P (ask q)
  unfolding ask
  Keeps-ask q = record { kept = λ s h. h }

  or_throw_kept : (o : Option A) (s : State) → P s.sessions → P (or_throw o s).0.sessions
  unfolding or_throw
  or_throw_kept none s h = h
  or_throw_kept (some a) s h = h

  pub Keeps-or_throw : (o : Option A) → Keeps P (or_throw o)
  Keeps-or_throw o = record { kept = or_throw_kept o }

module _ (P : SessionMap → Type 0) where
  pub Keeps-emit : (x : Effect) → Keeps P (emit x)
  unfolding emit
  Keeps-emit x = record { kept = λ s h. h }

  pub Keeps-lookup : (k : ℤ) → Keeps P (lookup_session k)
  unfolding lookup_session
  Keeps-lookup k = record { kept = λ s h. h }

  pub Keeps-set :
      (f : SessionMap → SessionMap) → ((m : SessionMap) → P m → P (f m)) → Keeps P (set_sessions f)
  unfolding set_sessions
  Keeps-set f h = record { kept = λ s p. h s.sessions p }

module _ (P : SessionMap → Type 0) {A B : Type 0} where
  bound :
      (f : A → M B) (s : State) (r : Result A)
      → ((a : A) → Keeps P (f a))
      → P s.sessions
      → P (bind (s, r) f).0.sessions
  unfolding bind
  bound f s (ok a) next h = (next a).kept s h
  bound f s threw next h = h
  bound f s blocked next h = h

  pub Keeps-bind :
      (m : M A) (f : A → M B) → Keeps P m → ((a : A) → Keeps P (f a)) → Keeps P (m >>= f)
  unfolding ◌>>=◌
  Keeps-bind m f first next = record { kept = λ s h. bound f (m s).0 (m s).1 next (first.kept s h) }

module _ (P : SessionMap → Type 0) {B : Type 0} where
  pub Keeps-then : (m : M (Unit {0})) (k : M B) → Keeps P m → Keeps P k → Keeps P (m >> k)
  unfolding ◌>>◌
  Keeps-then m k first next = Keeps-bind P m (λ _. k) first (λ _. next)

pub ruleset keeping =
    (Keeps-pure, Keeps-ask, Keeps-or_throw, Keeps-emit, Keeps-lookup, Keeps-bind, Keeps-then)
