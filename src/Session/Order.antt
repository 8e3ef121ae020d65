-- ===== src/Session/Order.antt =====
-- The outgoing queue under interleavings of closures, completions and failures.
use tiny_im.Prelude.{
  ℕ, ◌≤◌, length, ◌≡◌, subst, refl, sym, ap, ◌∙◌, Bool, true, false, List, [], ◌∷◌, ◌++◌, map,
  append_assoc, map-append, Option, none, some, Bytes, arith,
}
use tiny_im.Message.{Message, to_json}
use tiny_im.Message.Json.{JsonLib}
use tiny_im.Session.{
  Session, fresh, Outcome, returns, threw, undefined, Event, asks, runs, writes, write_fails,
  read_fails, send, stop, is_empty, begin_write, write_front, write, run_send, complete, run_posted,
  run_written, run_failed, step, run,
}

-- A state by its fields.
abbrev pub at : List Message → List Message → List Bytes → List Message → List Bytes → ℕ → Session
at q posted in_flight asked sent stops = record {
  write_msgs = q;
  posted = posted;
  in_flight = in_flight;
  asked = asked;
  sent = sent;
  stops = stops;
}

module _ (lib : JsonLib) where
  -- At most one write is in flight, and it is that of the first message of the queue.
  abbrev pub Carries : List Message → List Bytes → Type 0
  Carries q [] = Unit
  Carries [] (t ∷ ts) = ⊥
  Carries (m ∷ q) (t ∷ ts) = (to_json lib m ≡ some t) × (ts ≡ [])

  -- What `send` was called with is, in order, what was written, what is queued and what is posted.
  pub record IsSound (s : Session) : Type 0 where
    pub carries : Carries s.write_msgs s.in_flight
    pub done : List Message
    pub delivered : map (to_json lib) done ≡ map some s.sent
    pub ordered : s.asked ≡ done ++ (s.write_msgs ++ s.posted)

  -- An exception ends the run; an undefined call is excluded.
  abbrev pub EndsSound : Outcome → Type 0
  EndsSound (returns s) = IsSound s
  EndsSound threw = Unit
  EndsSound undefined = ⊥

  module _ (posted asked : List Message) (sent : List Bytes) (stops : ℕ) (done : List Message) where
    -- A write that is begun while none is in flight.
    begin_write-EndsSound :
        (m : Message) (q : List Message) (o : Option Bytes)
        → to_json lib m ≡ o
        → map (to_json lib) done ≡ map some sent
        → asked ≡ done ++ ((m ∷ q) ++ posted)
        → EndsSound (begin_write lib (at (m ∷ q) posted [] asked sent stops) o)
    unfolding begin_write
    begin_write-EndsSound m q none e d h = tt
    begin_write-EndsSound m q (some t) e d h = record {
      carries = (e, refl);
      done = done;
      delivered = d;
      ordered = h;
    }

    Carries-append :
        (m n : Message) (q : List Message) (ts : List Bytes)
        → Carries (m ∷ q) ts
        → Carries ((m ∷ q) ++ n ∷ []) ts
    Carries-append m n q [] c = tt
    Carries-append m n q (t ∷ ts) c = c

    run_send-EndsSound :
        (msg : Message) (q : List Message) (in_flight : List Bytes)
        → Carries q in_flight
        → map (to_json lib) done ≡ map some sent
        → asked ≡ done ++ (q ++ msg ∷ posted)
        → EndsSound (run_send lib msg (at q posted in_flight asked sent stops))
    unfolding run_send write write_front is_empty
    run_send-EndsSound msg [] [] c d h = begin_write-EndsSound msg [] (to_json lib msg) refl d h
    run_send-EndsSound msg [] (t ∷ ts) c d h = absurd c
    run_send-EndsSound msg (m ∷ q) in_flight c d h = record {
      carries = Carries-append m msg q in_flight c;
      done = done;
      delivered = d;
      ordered = h ∙ ap (λ l. done ++ m ∷ l) (sym (append_assoc q (msg ∷ []) posted));
    }

  pub map-snoc :
      (done : List Message) (sent : List Bytes) (m : Message) (t : Bytes)
      → to_json lib m ≡ some t
      → map (to_json lib) done ≡ map some sent
      → map (to_json lib) (done ++ m ∷ []) ≡ map some (sent ++ t ∷ [])
  map-snoc done sent m t e d =
      rw
        (
          map-append (to_json lib) done (m ∷ []),
          map-append (λ (b : Bytes). some b) sent (t ∷ []),
          d,
          e,
        )
        refl

  module _ (posted asked : List Message) (sent : List Bytes) (stops : ℕ) (done : List Message) where
    complete-EndsSound :
        (is_open : Bool) (m : Message) (q : List Message) (t : Bytes)
        → to_json lib m ≡ some t
        → map (to_json lib) done ≡ map some sent
        → asked ≡ done ++ ((m ∷ q) ++ posted)
        → EndsSound
            (complete lib is_open (at (m ∷ q) posted [] asked (sent ++ t ∷ []) stops) (m ∷ q))
    unfolding complete write write_front
    complete-EndsSound is_open m [] t e d h = record {
      carries = tt;
      done = done ++ m ∷ [];
      delivered = map-snoc done sent m t e d;
      ordered = h ∙ sym (append_assoc done (m ∷ []) posted);
    }
    complete-EndsSound false m (n ∷ q) t e d h = record {
      carries = tt;
      done = done ++ m ∷ [];
      delivered = map-snoc done sent m t e d;
      ordered = h ∙ sym (append_assoc done (m ∷ []) ((n ∷ q) ++ posted));
    }
    complete-EndsSound true m (n ∷ q) t e d h =
        begin_write-EndsSound posted asked (sent ++ t ∷ []) stops (done ++ m ∷ []) n q
          (to_json lib n) refl (map-snoc done sent m t e d)
          (h ∙ sym (append_assoc done (m ∷ []) ((n ∷ q) ++ posted)))

  run_written-EndsSound :
      (is_open : Bool) (q : List Message) (in_flight : List Bytes) (posted asked : List Message)
      (sent : List Bytes) (stops : ℕ)
      → IsSound (at q posted in_flight asked sent stops)
      → EndsSound (run_written lib is_open (at q posted in_flight asked sent stops) in_flight)
  unfolding run_written
  run_written-EndsSound is_open q [] posted asked sent stops h = h
  run_written-EndsSound is_open [] (t ∷ ts) posted asked sent stops h = absurd h.carries
  run_written-EndsSound is_open (m ∷ q) (t ∷ ts) posted asked sent stops h = rw h.carries.1 (
      complete-EndsSound posted asked sent stops h.done is_open m q t h.carries.0 h.delivered
        h.ordered)

  run_failed-EndsSound :
      (q : List Message) (in_flight : List Bytes) (posted asked : List Message) (sent : List Bytes)
      (stops : ℕ)
      → IsSound (at q posted in_flight asked sent stops)
      → EndsSound (run_failed lib (at q posted in_flight asked sent stops) in_flight)
  unfolding run_failed stop
  run_failed-EndsSound q [] posted asked sent stops h = h
  run_failed-EndsSound [] (t ∷ ts) posted asked sent stops h = absurd h.carries
  run_failed-EndsSound (m ∷ q) (t ∷ ts) posted asked sent stops h = record {
    carries = rw h.carries.1 tt;
    done = h.done;
    delivered = h.delivered;
    ordered = h.ordered;
  }

  run_posted-EndsSound :
      (q : List Message) (in_flight : List Bytes) (posted asked : List Message) (sent : List Bytes)
      (stops : ℕ)
      → IsSound (at q posted in_flight asked sent stops)
      → EndsSound (run_posted lib (at q posted in_flight asked sent stops) posted)
  unfolding run_posted
  run_posted-EndsSound q in_flight [] asked sent stops h = h
  run_posted-EndsSound q in_flight (msg ∷ rest) asked sent stops h =
      run_send-EndsSound rest asked sent stops h.done msg q in_flight h.carries h.delivered
        h.ordered

  -- No event takes `front` or `pop_front` of an empty deque, and each keeps the queue sound.
  pub step-EndsSound : (e : Event) (s : Session) → IsSound s → EndsSound (step lib e s)
  unfolding step send stop
  step-EndsSound (asks msg) s h = record {
    carries = h.carries;
    done = h.done;
    delivered = h.delivered;
    ordered =
        ap (λ l. l ++ msg ∷ []) h.ordered
        ∙ append_assoc h.done (s.write_msgs ++ s.posted) (msg ∷ [])
        ∙ ap (λ l. h.done ++ l) (append_assoc s.write_msgs s.posted (msg ∷ []));
  }
  step-EndsSound runs s h =
      run_posted-EndsSound s.write_msgs s.in_flight s.posted s.asked s.sent s.stops h
  step-EndsSound (writes is_open) s h =
      run_written-EndsSound is_open s.write_msgs s.in_flight s.posted s.asked s.sent s.stops h
  step-EndsSound write_fails s h =
      run_failed-EndsSound s.write_msgs s.in_flight s.posted s.asked s.sent s.stops h
  step-EndsSound read_fails s h = record {
    carries = h.carries;
    done = h.done;
    delivered = h.delivered;
    ordered = h.ordered;
  }

  pub run-EndsSound : (es : List Event) (o : Outcome) → EndsSound o → EndsSound (run lib es o)
  unfolding run
  run-EndsSound [] o h = h
  run-EndsSound (e ∷ es) (returns s) h = run-EndsSound es (step lib e s) (step-EndsSound e s h)
  run-EndsSound (e ∷ es) threw h = tt
  run-EndsSound (e ∷ es) undefined h = absurd h

  pub run-IsSound :
      (es : List Event) (s : Session) → run lib es (returns fresh) ≡ returns s → IsSound s
  run-IsSound es s e = subst EndsSound e (
      run-EndsSound es (returns fresh)
        (record { carries = tt; done = []; delivered = refl; ordered = refl }))

  length-Carries : (q : List Message) (ts : List Bytes) → Carries q ts → length ts ≤ 1
  length-Carries q [] c = omega arith
  length-Carries [] (t ∷ ts) c = absurd c
  length-Carries (m ∷ q) (t ∷ ts) c = rw c.1 (omega arith)

  -- An exception ends the run; a call that is undefined is excluded.
  abbrev pub WritesInTurn : Outcome → Type 0
  WritesInTurn (returns s) =
      (length s.in_flight ≤ 1)
      × (done : List Message) × (map (to_json lib) done ≡ map some s.sent)
      × (s.asked ≡ done ++ (s.write_msgs ++ s.posted))
  WritesInTurn threw = Unit
  WritesInTurn undefined = ⊥

  EndsSound-WritesInTurn : (o : Outcome) → EndsSound o → WritesInTurn o
  EndsSound-WritesInTurn (returns s) h =
      (length-Carries s.write_msgs s.in_flight h.carries, h.done, h.delivered, h.ordered)
  EndsSound-WritesInTurn threw h = tt
  EndsSound-WritesInTurn undefined h = h

  -- However calls of send, their closures, completions and failures follow one another on a new
  -- connection, front and pop_front are never called on an empty deque; and as long as no
  -- exception ends the run, at most one write is in flight, and the messages given to send are, in
  -- order and none twice, those whose JSON texts were written, those in the queue, and those
  -- posted.
  pub run-in_order : (es : List Event) → WritesInTurn (run lib es (returns fresh))
  run-in_order es = EndsSound-WritesInTurn (run lib es (returns fresh)) (
      run-EndsSound es (returns fresh)
        (record { carries = tt; done = []; delivered = refl; ordered = refl }))
