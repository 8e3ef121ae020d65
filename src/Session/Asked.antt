-- ===== src/Session/Asked.antt =====
-- What the events of a connection do to the record of the calls of `send`.
use tiny_im.Prelude.{
  ◌≡◌, refl, sym, ◌∙◌, Bool, true, false, List, [], ◌∷◌, ◌++◌, map, append_assoc, append-nil,
  Option, none, some, Bytes, subst, if◌then◌else◌,
}
use tiny_im.Message.{Message, to_json}
use tiny_im.Message.Json.{JsonLib}
use tiny_im.Session.{
  Session, Outcome, returns, threw, undefined, Event, asks, runs, writes, write_fails, read_fails,
  send, stop, is_empty, begin_write, write_front, write, run_send, complete, run_posted,
  run_written, run_failed, step, run,
}

-- The calls of `send` that an event is.
abbrev pub asked_by : Event → List Message
asked_by (asks msg) = msg ∷ []
asked_by _ = []

-- The connection after calls of `send`.
abbrev pub give : List Message → Session → Session
give [] s = s
give (m ∷ ms) s = give ms (send m s)

module _ (lib : JsonLib) where
  pub give-run :
      (ms : List Message) (s : Session) → run lib (map asks ms) (returns s) ≡ returns (give ms s)
  unfolding run step
  give-run [] s = refl
  give-run (m ∷ ms) s = give-run ms (send m s)

  abbrev Has : List Message → Outcome → Type 0
  Has l (returns s) = s.asked ≡ l
  Has l threw = Unit
  Has l undefined = Unit

  begin_write-Has : (s : Session) (o : Option Bytes) → Has s.asked (begin_write lib s o)
  unfolding begin_write
  begin_write-Has s none = tt
  begin_write-Has s (some t) = refl

  write_front-Has : (s : Session) (q : List Message) → Has s.asked (write_front lib s q)
  unfolding write_front
  write_front-Has s [] = tt
  write_front-Has s (m ∷ q) = begin_write-Has s (to_json lib m)

  unless_empty-Has : (b : Bool) (s : Session) → Has s.asked (if b then write lib s else returns s)
  unfolding write
  unless_empty-Has true s = write_front-Has s s.write_msgs
  unless_empty-Has false s = refl

  complete-Has :
      (is_open : Bool) (s : Session) (q : List Message) → Has s.asked (complete lib is_open s q)
  unfolding complete
  complete-Has is_open s [] = tt
  complete-Has is_open s (m ∷ []) = refl
  complete-Has is_open s (m ∷ n ∷ q) = unless_empty-Has is_open (record s { write_msgs = n ∷ q })

  run_posted-Has : (s : Session) (p : List Message) → Has s.asked (run_posted lib s p)
  unfolding run_posted run_send
  run_posted-Has s [] = refl
  run_posted-Has s (m ∷ rest) =
      unless_empty-Has (is_empty s.write_msgs)
        (record s { posted = rest; write_msgs = s.write_msgs ++ m ∷ [] })

  run_written-Has :
      (is_open : Bool) (s : Session) (f : List Bytes) → Has s.asked (run_written lib is_open s f)
  unfolding run_written
  run_written-Has is_open s [] = refl
  run_written-Has is_open s (t ∷ ts) = complete-Has is_open _ s.write_msgs

  run_failed-Has : (s : Session) (f : List Bytes) → Has s.asked (run_failed lib s f)
  unfolding run_failed stop
  run_failed-Has s [] = refl
  run_failed-Has s (t ∷ ts) = refl

  step-Has : (e : Event) (s : Session) → Has (s.asked ++ asked_by e) (step lib e s)
  unfolding step send stop
  step-Has (asks msg) s = refl
  step-Has runs s =
      subst (λ l. Has l (run_posted lib s s.posted)) (sym (append-nil s.asked))
        (run_posted-Has s s.posted)
  step-Has (writes is_open) s =
      subst (λ l. Has l (run_written lib is_open s s.in_flight)) (sym (append-nil s.asked))
        (run_written-Has is_open s s.in_flight)
  step-Has write_fails s =
      subst (λ l. Has l (run_failed lib s s.in_flight)) (sym (append-nil s.asked))
        (run_failed-Has s s.in_flight)
  step-Has read_fails s = sym (append-nil s.asked)

  -- An event changes the record by the calls of `send` that it is.
  pub step-asked :
      (e : Event) (s s' : Session) → step lib e s ≡ returns s' → s'.asked ≡ s.asked ++ asked_by e
  step-asked e s s' h = subst (Has (s.asked ++ asked_by e)) h (step-Has e s)

pub give-asked : (ms : List Message) (s : Session) → (give ms s).asked ≡ s.asked ++ ms
unfolding send
give-asked [] s = sym (append-nil s.asked)
give-asked (m ∷ ms) s = give-asked ms (send m s) ∙ append_assoc s.asked (m ∷ []) ms
