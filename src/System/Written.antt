-- ===== src/System/Written.antt =====
-- From what the handler sends to a session to what its connection writes.
use tiny_im.Prelude.{
  ◌≤◌, ◌≡◌, ◌≢◌, false, refl, sym, ap, subst, ◌∙◌, inl, List, [], ◌∷◌, ◌++◌, map, Option, none,
  some, Bytes, length,
}
use tiny_im.Message.{Message, to_json}
use tiny_im.Message.Json.{JsonLib}
use tiny_im.Handler.State.{SessionId}
use tiny_im.Session
use tiny_im.Session.{Session, fresh, returns}
use tiny_im.Session.Order.{at, WritesInTurn, run-in_order}
use tiny_im.Session.Drain.{IsCalm, drain, run-drain}
use tiny_im.System.{System, Event, connects, receives, closed, works, run}
use tiny_im.System.Lines.{run-Reaches}
use tiny_im.System.Wires.{given_all, AllFit, run-Wired}

module _ (lib : JsonLib) where
  run-append :
      (es fs : List Event) (w : Option System) → run lib (es ++ fs) w ≡ run lib fs (run lib es w)
  unfolding run
  run-append [] fs w = refl
  run-append (e ∷ es) [] none = refl
  run-append (e ∷ es) (f ∷ fs) none = refl
  run-append (e ∷ es) fs (some w) = run-append es fs _

  abbrev Any : Session.Event → Type 0
  Any e = Unit

  all-Any : (j : SessionId) (es : List Event) (o : Option System) → AllFit lib j Any (λ m. tt) es o
  all-Any j [] o = tt
  all-Any j (e ∷ es) none = tt
  all-Any j (connects id success ∷ es) (some w) = (tt, all-Any j es _)
  all-Any j (receives env id text ∷ es) (some w) = (tt, all-Any j es _)
  all-Any j (closed id ∷ es) (some w) = (tt, all-Any j es _)
  all-Any j (works id e ∷ es) (some w) = (inl tt, all-Any j es _)

  -- However the events of all connections interleave, failures and closures included, and unless
  -- an exception ends the run or a handler waits for ever: what a connection has written is, in
  -- order and none twice, the texts of the first of the messages given to it since its last
  -- handshake, which are those that the handler sent to its session, and calls of send that are
  -- events of their own; the others are in its queue or posted, and at most one write is in
  -- flight. The connection was new when the events began.
  pub run-writes_in_order :
      (j : SessionId) (es : List Event) (w w' : System)
      → w.lines j ≡ fresh
      → run lib es (some w) ≡ some w'
      → let line = w'.lines j in
        (done : List Message) × (map (to_json lib) done ≡ map some line.sent)
        × (given_all lib j es (some w) [] ≡ done ++ (line.write_msgs ++ line.posted))
        × (length line.in_flight ≤ 1)
  run-writes_in_order j es w w' new ran =
      let h = run-Wired lib j Any (λ m. tt) es w w' (all-Any j es (some w)) new ran in
      let (one, done, texts, rest) = subst (WritesInTurn lib) h.ran (run-in_order lib h.events) in
      (done, texts, sym h.known ∙ rest, one)

  -- However the events of all connections interleave, if no handler waits for ever and no
  -- exception ends the run, no write or read of a connection failed, the server did not begin to
  -- close it, and all messages given to it since its last handshake, by the handler or by calls of
  -- send that are events of their own, can be dumped, then its posted closures and one completion
  -- for each message left write the texts of all these messages, in the order in which they were
  -- given, and leave nothing queued or posted; the other connections and the handler stay as they
  -- were. The connection was new when the events began.
  pub run-delivers :
      (j : SessionId) (es : List Event) (w w' : System) (ts : List Bytes)
      → AllFit lib j IsCalm (λ m. tt) es (some w)
      → w.lines j ≡ fresh
      → run lib es (some w) ≡ some w'
      → w'.shut j ≡ false
      → map (to_json lib) (given_all lib j es (some w) []) ≡ map some ts
      → (later : System) × (run lib (es ++ map (works j) (drain (w'.lines j))) (some w)
          ≡ some later)
        × ((later.lines j).sent ≡ ts)
        × ((later.lines j).write_msgs ≡ [])
        × ((later.lines j).posted ≡ [])
        × ((k : SessionId) → k ≢ j → later.lines k ≡ w'.lines k)
        × (later.server.handler ≡ w'.server.handler)
  run-delivers j es w w' ts calm new ran still dumped =
      let h = run-Wired lib j IsCalm (λ m. tt) es w w' calm new ran in
      let line = w'.lines j in
      let r =
        run-Reaches lib j (drain line) w' (at [] [] [] line.asked ts line.stops) still (
          run-drain lib h.events line ts h.kinds h.ran (ap (map (to_json lib)) h.known ∙ dumped)) in
      (
        r.last,
        run-append es (map (works j) (drain line)) (some w)
            ∙ ap (run lib (map (works j) (drain line))) ran
            ∙ r.runs_to,
        ap (λ (l : Session). l.sent) r.own,
        ap (λ (l : Session). l.write_msgs) r.own,
        ap (λ (l : Session). l.posted) r.own,
        r.others,
        r.handler_kept,
      )
