-- ===== src/Session/Stall.antt =====
-- The outgoing queue after a write that failed.
use tiny_im.Prelude.{ℕ, ◌≡◌, suc, ◌≢◌, refl, sym, subst, List, [], ◌∷◌, ◌++◌, Bytes}
use tiny_im.Message.{Message}
use tiny_im.Message.Json.{JsonLib}
use tiny_im.Session.{
  Session, fresh, Outcome, returns, Event, asks, runs, writes, write_fails, read_fails, send, stop,
  is_empty, run_send, run_posted, run_written, run_failed, step, run,
}
use tiny_im.Session.Order.{at, Carries, run-IsSound}

module _ (lib : JsonLib) (sent : List Bytes) where
  -- A queue that holds a message while no write is in flight.
  abbrev IsStuck : List Message → List Bytes → List Bytes → Type 0
  IsStuck [] f written = ⊥
  IsStuck (m ∷ q) f written = (f ≡ []) × (written ≡ sent)

  abbrev EndsStuck : Outcome → Type 0
  EndsStuck o = (s : Session) × (o ≡ returns s) × IsStuck s.write_msgs s.in_flight s.sent

  run_posted-EndsStuck :
      (q posted asked : List Message) (written : List Bytes) (stops : ℕ)
      → IsStuck q [] written
      → EndsStuck (run_posted lib (at q posted [] asked written stops) posted)
  unfolding run_posted run_send is_empty
  run_posted-EndsStuck q [] asked written stops h = (at q [] [] asked written stops, refl, h)
  run_posted-EndsStuck [] (p ∷ ps) asked written stops h = absurd h
  run_posted-EndsStuck (m ∷ q) (p ∷ ps) asked written stops h =
      (at ((m ∷ q) ++ p ∷ []) ps [] asked written stops, refl, h)

  still :
      (q : List Message) (f written : List Bytes)
      → IsStuck q f written
      → (written ≡ sent) × (f ≡ [])
  still [] f written h = absurd h
  still (m ∷ q) f written h = (h.1, h.0)

  step-EndsStuck :
      (e : Event) (q posted asked : List Message) (written : List Bytes) (stops : ℕ)
      → IsStuck q [] written
      → EndsStuck (step lib e (at q posted [] asked written stops))
  unfolding step send stop run_written run_failed
  step-EndsStuck (asks msg) q posted asked written stops h =
      (at q (posted ++ msg ∷ []) [] (asked ++ msg ∷ []) written stops, refl, h)
  step-EndsStuck runs q posted asked written stops h =
      run_posted-EndsStuck q posted asked written stops h
  step-EndsStuck (writes is_open) q posted asked written stops h =
      (at q posted [] asked written stops, refl, h)
  step-EndsStuck write_fails q posted asked written stops h =
      (at q posted [] asked written stops, refl, h)
  step-EndsStuck read_fails q posted asked written stops h =
      (at q posted [] asked written (suc stops), refl, h)

  run-EndsStuck : (es : List Event) (o : Outcome) → EndsStuck o → EndsStuck (run lib es o)
  unfolding run
  run-EndsStuck [] o h = h
  run-EndsStuck (e ∷ es) o (s, h, k) = rw h (
      run-EndsStuck es (step lib e s) (
        subst
          (λ f.
            IsStuck s.write_msgs f s.sent
            → EndsStuck (step lib e (at s.write_msgs s.posted f s.asked s.sent s.stops)))
          (sym (still s.write_msgs s.in_flight s.sent k).1)
          (step-EndsStuck e s.write_msgs s.posted s.asked s.sent s.stops) k))

module _ (lib : JsonLib) where
  fail-EndsStuck :
      (q posted asked : List Message) (f sent : List Bytes) (stops : ℕ)
      → Carries lib q f
      → f ≢ []
      → EndsStuck lib sent (run_failed lib (at q posted f asked sent stops) f)
  unfolding run_failed stop
  fail-EndsStuck q posted asked [] sent stops c h = absurd (h refl)
  fail-EndsStuck [] posted asked (t ∷ ts) sent stops c h = absurd c
  fail-EndsStuck (m ∷ q) posted asked (t ∷ ts) sent stops c h =
      (at (m ∷ q) posted ts asked sent (suc stops), refl, (c.1, refl))

  -- After a write that fails, whatever follows, the connection raises no exception, has sent what
  -- it had sent before, and no write is in flight. The write was in flight on a connection that
  -- began empty.
  pub run-write_fails :
      (es later : List Event) (s : Session)
      → run lib es (returns fresh) ≡ returns s
      → s.in_flight ≢ []
      → (s' : Session) × (run lib (write_fails ∷ later) (returns s) ≡ returns s')
        × (s'.sent ≡ s.sent)
        × (s'.in_flight ≡ [])
  unfolding run step
  run-write_fails es later s e h =
      let (s', r, k) = run-EndsStuck lib s.sent later (run_failed lib s s.in_flight) (
        fail-EndsStuck s.write_msgs s.posted s.asked s.in_flight s.sent s.stops
          (run-IsSound lib es s e).carries h) in
      let (kept, none_left) = still lib s.sent s'.write_msgs s'.in_flight s'.sent k in
      (s', r, kept, none_left)
