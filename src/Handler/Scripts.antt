-- ===== src/Handler/Scripts.antt =====
-- Which calls of the database a run of the monad makes.
use tiny_im.Prelude.{
  ℕ, ◌+◌, ◌≤◌, ◌≡◌, refl, sym, ap, ◌∙◌, List, [], ◌∷◌, ◌++◌, Option, none, some, arith, length,
  length-append,
}
use tiny_im.Prelude.Int.{ℤ}
use tiny_im.Database.Pool.{Db, Result, ok, threw, blocked}
use tiny_im.Database.Calls.{Call, after, after_all}
use tiny_im.Handler.State.{
  SessionId, Effect, Env, State, find, M, bind, set_sessions, ◌>>=◌, pure, ask, or_throw, emit,
  lookup_session,
}
use tiny_im.Handler.Sessions.{SessionMap}

-- The second database comes from the first by a history of `least` to `most` calls.
pub record Queried (env : Env) (least most : ℕ) (before later : Db) : Type 0 where
  pub script : List Call
  pub done : later ≡ after_all env.engine env.sha256 before script
  pub enough : least ≤ length script
  pub few : length script ≤ most

-- Whatever way a run ends, it has done to the database what `least` to `most` calls do.
pub record Asks (env : Env) (least most : ℕ) {A : Type 0} (m : M A) : Type 0 where
  pub asked : (s : State) → Queried env least most s.db (m s).0.db

after_all-append :
    (env : Env) (db : Db) (cs ds : List Call)
    → after_all env.engine env.sha256 db (cs ++ ds)
      ≡ after_all env.engine env.sha256 (after_all env.engine env.sha256 db cs) ds
unfolding after_all
after_all-append env db [] ds = refl
after_all-append env db (c ∷ cs) ds = after_all-append env (after env.engine env.sha256 db c) cs ds

module _ {env : Env} where
  pub no_calls : (db : Db) → Queried env 0 0 db db
  unfolding after_all
  no_calls db = record { script = []; done = refl; enough = omega arith; few = omega arith }

  pub one_call : (db : Db) (c : Call) → Queried env 1 1 db (after env.engine env.sha256 db c)
  unfolding after_all
  one_call db c = record { script = c ∷ []; done = refl; enough = omega arith; few = omega arith }

  pub then_calls :
      {least most more : ℕ} {a b c : Db}
      → Queried env least most a b
      → Queried env 0 more b c
      → Queried env least (most + more) a c
  then_calls first next = record {
    script = first.script ++ next.script;
    done =
        next.done
        ∙ ap (λ db. after_all env.engine env.sha256 db next.script) first.done
        ∙ sym (after_all-append env _ first.script next.script);
    enough = omega (arith, length-append first.script next.script, first.enough);
    few = omega (arith, length-append first.script next.script, first.few, next.few);
  }

  pub weaken :
      {least most l m : ℕ} {a b : Db}
      → l ≤ least
      → most ≤ m
      → Queried env least most a b
      → Queried env l m a b
  weaken h k c = record {
    script = c.script;
    done = c.done;
    enough = omega (arith, c.enough);
    few = omega (arith, c.few);
  }

module _ {env : Env} {A : Type 0} where
  pub Asks-pure : (a : A) → Asks env 0 0 (pure a)
  unfolding pure
  Asks-pure a = record { asked = λ s. no_calls s.db }

  -- A query that is one call.
  pub Asks-ask :
      (q : Db → Db × Result A) (c : Call)
      → ((db : Db) → (q db).0 ≡ after env.engine env.sha256 db c)
      → Asks env 1 1 (ask q)
  unfolding ask
  Asks-ask q c h = record { asked = λ s. rw (h s.db) (one_call s.db c) }

  or_throw_asked : (o : Option A) (s : State) → Queried env 0 0 s.db (or_throw o s).0.db
  unfolding or_throw
  or_throw_asked none s = no_calls s.db
  or_throw_asked (some a) s = no_calls s.db

  pub Asks-or_throw : (o : Option A) → Asks env 0 0 (or_throw o)
  Asks-or_throw o = record { asked = or_throw_asked o }

  pub Asks-weaken :
      {least most l m : ℕ} (r : M A) → l ≤ least → most ≤ m → Asks env least most r → Asks env l m r
  Asks-weaken r h k a = record { asked = λ s. weaken h k (a.asked s) }

module _ {env : Env} where
  pub Asks-emit : (x : Effect) → Asks env 0 0 (emit x)
  unfolding emit
  Asks-emit x = record { asked = λ s. no_calls s.db }

  pub Asks-lookup : (k : ℤ) → Asks env 0 0 (lookup_session k)
  unfolding lookup_session
  Asks-lookup k = record { asked = λ s. no_calls s.db }

  pub Asks-set : (f : SessionMap → SessionMap) → Asks env 0 0 (set_sessions f)
  unfolding set_sessions
  Asks-set f = record { asked = λ s. no_calls s.db }

module _ {env : Env} {A B : Type 0} where
  bound :
      {least most more : ℕ} (f : A → M B) (db : Db) (s : State) (r : Result A)
      → ((a : A) → Asks env 0 more (f a))
      → Queried env least most db s.db
      → Queried env least (most + more) db (bind (s, r) f).0.db
  unfolding bind
  bound f db s (ok a) next h = then_calls h ((next a).asked s)
  bound f db s threw next h = weaken (omega arith) (omega arith) h
  bound f db s blocked next h = weaken (omega arith) (omega arith) h

  pub Asks-bind :
      {least most more : ℕ} (m : M A) (f : A → M B)
      → Asks env least most m
      → ((a : A) → Asks env 0 more (f a))
      → Asks env least (most + more) (m >>= f)
  unfolding ◌>>=◌
  Asks-bind m f first next = record {
    asked = λ s. bound f s.db (m s).0 (m s).1 next (first.asked s);
  }

  -- What follows the last call.
  pub Asks-last :
      {least most : ℕ} (m : M A) (f : A → M B)
      → Asks env least most m
      → ((a : A) → Asks env 0 0 (f a))
      → Asks env least most (m >>= f)
  Asks-last m f first next =
      Asks-weaken (m >>= f) (omega arith) (omega arith) (Asks-bind m f first next)

  -- What comes before the first call, and may end the run.
  pub Asks-guard :
      {most : ℕ} (m : M A) (f : A → M B)
      → Asks env 0 0 m
      → ((a : A) → Asks env 0 most (f a))
      → Asks env 0 most (m >>= f)
  Asks-guard m f first next =
      Asks-weaken (m >>= f) (omega arith) (omega arith) (Asks-bind m f first next)

module _ {env : Env} {least most : ℕ} {B : Type 0} where
  pub Asks-found :
      (k : ℤ) (f : Option SessionId → M B)
      → ((o : Option SessionId) → Asks env least most (f o))
      → Asks env least most (lookup_session k >>= f)
  unfolding ◌>>=◌ lookup_session bind
  Asks-found k f next = record { asked = λ s. (next (find k s.sessions)).asked s }
