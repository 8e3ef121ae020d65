-- ===== src/Session/Drain.antt =====
-- Runs without a failure on a stream that stays open, and the schedule that empties the queue.
use tiny_im.Prelude.{
  ℕ, zero, suc, ◌≡◌, refl, sym, ap, ◌∙◌, subst, true, false, List, [], ◌∷◌, ◌++◌, map, append_assoc,
  append-nil, map-append, Option, none, some, Bytes, All, length,
}
use tiny_im.Message.{Message, to_json}
use tiny_im.Message.Json.{JsonLib}
use tiny_im.Session.{
  Session, fresh, Outcome, returns, threw, undefined, Event, asks, runs, writes, write_fails,
  read_fails, send, is_empty, begin_write, write_front, write, run_send, complete, run_posted,
  run_written, step, run,
}
use tiny_im.Session.Order.{at, run-IsSound}

-- No error, and the stream stays open.
abbrev pub IsCalm : Event → Type 0
IsCalm (asks msg) = Unit
IsCalm runs = Unit
IsCalm (writes true) = Unit
IsCalm (writes false) = ⊥
IsCalm write_fails = ⊥
IsCalm read_fails = ⊥

abbrev times : ℕ → Event → List Event
times zero e = []
times (suc n) e = e ∷ times n e

-- Every closure that is posted, then one completion for each message.
abbrev pub drain : Session → List Event
drain s = times (length s.posted) runs ++ times (length (s.write_msgs ++ s.posted)) (writes true)

module _ (lib : JsonLib) where
  -- A write is in flight exactly while the queue holds messages.
  abbrev Busy : List Message → List Bytes → Type 0
  Busy [] [] = Unit
  Busy [] (t ∷ ts) = ⊥
  Busy (m ∷ q) [] = ⊥
  Busy (m ∷ q) (t ∷ ts) = (to_json lib m ≡ some t) × (ts ≡ [])

  abbrev EndsBusy : Outcome → Type 0
  EndsBusy (returns s) = Busy s.write_msgs s.in_flight
  EndsBusy threw = Unit
  EndsBusy undefined = Unit

  module _ (posted asked : List Message) (sent : List Bytes) (stops : ℕ) where
    begin_write-EndsBusy :
        (m : Message) (q : List Message) (o : Option Bytes)
        → to_json lib m ≡ o
        → EndsBusy (begin_write lib (at (m ∷ q) posted [] asked sent stops) o)
    unfolding begin_write
    begin_write-EndsBusy m q none e = tt
    begin_write-EndsBusy m q (some t) e = (e, refl)

    run_send-EndsBusy :
        (msg : Message) (q : List Message) (f : List Bytes)
        → Busy q f
        → EndsBusy (run_send lib msg (at q posted f asked sent stops))
    unfolding run_send write write_front is_empty
    run_send-EndsBusy msg [] [] b = begin_write-EndsBusy msg [] (to_json lib msg) refl
    run_send-EndsBusy msg [] (t ∷ ts) b = absurd b
    run_send-EndsBusy msg (m ∷ q) [] b = absurd b
    run_send-EndsBusy msg (m ∷ q) (t ∷ ts) b = b

    complete-EndsBusy :
        (m : Message) (q : List Message)
        → EndsBusy (complete lib true (at (m ∷ q) posted [] asked sent stops) (m ∷ q))
    unfolding complete write write_front
    complete-EndsBusy m [] = tt
    complete-EndsBusy m (n ∷ q) = begin_write-EndsBusy n q (to_json lib n) refl

  run_posted-EndsBusy :
      (q : List Message) (f : List Bytes) (posted asked : List Message) (sent : List Bytes)
      (stops : ℕ)
      → Busy q f
      → EndsBusy (run_posted lib (at q posted f asked sent stops) posted)
  unfolding run_posted
  run_posted-EndsBusy q f [] asked sent stops b = b
  run_posted-EndsBusy q f (msg ∷ rest) asked sent stops b =
      run_send-EndsBusy rest asked sent stops msg q f b

  run_written-EndsBusy :
      (q : List Message) (f : List Bytes) (posted asked : List Message) (sent : List Bytes)
      (stops : ℕ)
      → Busy q f
      → EndsBusy (run_written lib true (at q posted f asked sent stops) f)
  unfolding run_written
  run_written-EndsBusy q [] posted asked sent stops b = b
  run_written-EndsBusy [] (t ∷ ts) posted asked sent stops b = absurd b
  run_written-EndsBusy (m ∷ q) (t ∷ ts) posted asked sent stops b =
      rw b.1 (complete-EndsBusy posted asked (sent ++ t ∷ []) stops m q)

  step-EndsBusy :
      (e : Event) (s : Session) → IsCalm e → Busy s.write_msgs s.in_flight → EndsBusy (step lib e s)
  unfolding step send
  step-EndsBusy (asks msg) s c b = b
  step-EndsBusy runs s c b =
      run_posted-EndsBusy s.write_msgs s.in_flight s.posted s.asked s.sent s.stops b
  step-EndsBusy (writes true) s c b =
      run_written-EndsBusy s.write_msgs s.in_flight s.posted s.asked s.sent s.stops b
  step-EndsBusy (writes false) s c b = absurd c
  step-EndsBusy write_fails s c b = absurd c
  step-EndsBusy read_fails s c b = absurd c

  run-EndsBusy :
      (es : List Event) (o : Outcome) → All IsCalm es → EndsBusy o → EndsBusy (run lib es o)
  unfolding run
  run-EndsBusy [] o c b = b
  run-EndsBusy (e ∷ es) (returns s) c b =
      run-EndsBusy es (step lib e s) c.1 (step-EndsBusy e s c.0 b)
  run-EndsBusy (e ∷ es) threw c b = tt
  run-EndsBusy (e ∷ es) undefined c b = tt

  pub run-append :
      (es fs : List Event) (o : Outcome) → run lib (es ++ fs) o ≡ run lib fs (run lib es o)
  unfolding run
  run-append [] fs o = refl
  run-append (e ∷ es) fs (returns s) = run-append es fs (step lib e s)
  run-append (e ∷ es) [] threw = refl
  run-append (e ∷ es) (f ∷ fs) threw = refl
  run-append (e ∷ es) [] undefined = refl
  run-append (e ∷ es) (f ∷ fs) undefined = refl

  write-eq :
      (m : Message) (q posted asked : List Message) (sent : List Bytes) (stops : ℕ) (t : Bytes)
      → to_json lib m ≡ some t
      → write lib (at (m ∷ q) posted [] asked sent stops)
        ≡ returns (at (m ∷ q) posted (t ∷ []) asked sent stops)
  unfolding write write_front begin_write
  write-eq m q posted asked sent stops t e =
      ap (begin_write lib (at (m ∷ q) posted [] asked sent stops)) e

  head_eq : {A : Type 0} {x y : A} {xs ys : List A} → x ∷ xs ≡ y ∷ ys → x ≡ y
  head_eq e = cc

  tail_eq : {A : Type 0} {x y : A} {xs ys : List A} → x ∷ xs ≡ y ∷ ys → xs ≡ ys
  tail_eq e = cc

  -- The completions.
  drain_writes :
      (q : List Message) (m : Message) (t : Bytes) (ts : List Bytes) (asked : List Message)
      (sent : List Bytes) (stops : ℕ)
      → map (to_json lib) q ≡ map some ts
      → run lib
          (writes true ∷ times (length q) (writes true))
          (returns (at (m ∷ q) [] (t ∷ []) asked sent stops))
        ≡ returns (at [] [] [] asked (sent ++ t ∷ ts) stops)
  unfolding run step run_written complete
  drain_writes [] m t [] asked sent stops e = refl
  drain_writes [] m t (u ∷ ts) asked sent stops e = cc
  drain_writes (n ∷ q) m t [] asked sent stops e = cc
  drain_writes (n ∷ q) m t (u ∷ ts) asked sent stops e =
      ap (run lib (writes true ∷ times (length q) (writes true)))
        (write-eq n q [] asked (sent ++ t ∷ []) stops u (head_eq e))
      ∙ drain_writes q n u ts asked (sent ++ t ∷ []) stops (tail_eq e)
      ∙ ap (λ l. returns (at [] [] [] asked l stops)) (append_assoc sent (t ∷ []) (u ∷ ts))

  -- The closures, while the queue holds a message.
  drain_runs :
      (ps : List Message) (m : Message) (q : List Message) (f : List Bytes) (asked : List Message)
      (sent : List Bytes) (stops : ℕ)
      → run lib (times (length ps) runs) (returns (at (m ∷ q) ps f asked sent stops))
        ≡ returns (at (m ∷ (q ++ ps)) [] f asked sent stops)
  unfolding run step run_posted run_send is_empty
  drain_runs [] m q f asked sent stops =
      ap (λ l. returns (at (m ∷ l) [] f asked sent stops)) (sym (append-nil q))
  drain_runs (p ∷ ps) m q f asked sent stops =
      drain_runs ps m (q ++ p ∷ []) f asked sent stops
      ∙ ap (λ l. returns (at (m ∷ l) [] f asked sent stops)) (append_assoc q (p ∷ []) ps)

  -- What is left to write, when all messages can be dumped.
  rest_of :
      (sent : List Bytes) (rest : List (Option Bytes)) (ts : List Bytes)
      → map some sent ++ rest ≡ map some ts
      → (us : List Bytes) × (rest ≡ map some us) × (ts ≡ sent ++ us)
  rest_of [] rest ts e = (ts, e, refl)
  rest_of (x ∷ sent) rest [] e = cc
  rest_of (x ∷ sent) rest (t ∷ ts) e =
      let (us, r, h) = rest_of sent rest ts (tail_eq e) in (us, r, cc)

  same_text : {o : Option Bytes} {t u : Bytes} → o ≡ some t → o ≡ some u → t ≡ u
  same_text h e = cc

  drain_all :
      (q : List Message) (f : List Bytes) (posted asked : List Message) (sent us : List Bytes)
      (stops : ℕ)
      → Busy q f
      → map (to_json lib) (q ++ posted) ≡ map some us
      → run lib (drain (at q posted f asked sent stops)) (returns (at q posted f asked sent stops))
        ≡ returns (at [] [] [] asked (sent ++ us) stops)
  unfolding run step run_posted run_send is_empty
  drain_all [] [] [] asked sent [] stops b e =
      ap (λ l. returns (at [] [] [] asked l stops)) (sym (append-nil sent))
  drain_all [] [] [] asked sent (u ∷ us) stops b e = cc
  drain_all [] [] (p ∷ ps) asked sent [] stops b e = cc
  drain_all [] [] (p ∷ ps) asked sent (u ∷ us) stops b e =
      run-append (times (length ps) runs) (times (length (p ∷ ps)) (writes true))
        (write lib (at (p ∷ []) ps [] asked sent stops))
      ∙ ap
          (λ o.
            run lib (times (length (p ∷ ps)) (writes true)) (run lib (times (length ps) runs) o))
          (write-eq p [] ps asked sent stops u (head_eq e))
      ∙ ap (run lib (times (length (p ∷ ps)) (writes true)))
          (drain_runs ps p [] (u ∷ []) asked sent stops)
      ∙ drain_writes ps p u us asked sent stops (tail_eq e)
  drain_all [] (t ∷ ts) posted asked sent us stops b e = absurd b
  drain_all (m ∷ q) [] posted asked sent us stops b e = absurd b
  drain_all (m ∷ q) (t ∷ ts) posted asked sent [] stops b e = cc
  drain_all (m ∷ q) (t ∷ ts) posted asked sent (u ∷ us) stops b e =
      rw (b.1, same_text b.0 (head_eq e))
        (run-append (times (length posted) runs) (times (length (m ∷ (q ++ posted))) (writes true))
            (returns (at (m ∷ q) posted (u ∷ []) asked sent stops))
          ∙ ap (run lib (times (length (m ∷ (q ++ posted))) (writes true)))
              (drain_runs posted m q (u ∷ []) asked sent stops)
          ∙ drain_writes (q ++ posted) m u us asked sent stops (tail_eq e))

  -- After any events without a failure on a stream that stays open, if all messages given to send
  -- can be dumped, running the posted closures and then one completion for each message left
  -- writes the texts of all messages, in the order of the calls, and leaves nothing queued.
  pub run-drain :
      (es : List Event) (s : Session) (ts : List Bytes)
      → All IsCalm es
      → run lib es (returns fresh) ≡ returns s
      → map (to_json lib) s.asked ≡ map some ts
      → run lib (drain s) (returns s) ≡ returns (at [] [] [] s.asked ts s.stops)
  run-drain es s ts calm e dumped =
      let h = run-IsSound lib es s e in
      let (us, r, t) = rest_of s.sent (map (to_json lib) (s.write_msgs ++ s.posted)) ts (
        ap (λ l. l ++ map (to_json lib) (s.write_msgs ++ s.posted)) (sym h.delivered)
        ∙ sym (map-append (to_json lib) h.done (s.write_msgs ++ s.posted))
        ∙ sym (ap (map (to_json lib)) h.ordered)
        ∙ dumped) in
      drain_all s.write_msgs s.in_flight s.posted s.asked s.sent us s.stops
        (subst EndsBusy e (run-EndsBusy es (returns fresh) calm tt)) r
      ∙ ap (λ l. returns (at [] [] [] s.asked l s.stops)) (sym t)
