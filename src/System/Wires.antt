-- ===== src/System/Wires.antt =====
-- What each connection writes, over any interleaving of the events of all connections.
use tiny_im.Prelude.{
  ◌≡◌, ◌≢◌, refl, sym, ap, subst, ◌∙◌, ◌⊎◌, inl, inr, Bool, true, false, List, [], ◌∷◌, ◌++◌, map,
  Option, none, some, if◌then◌else◌, ◌==◌, ==_iff, All, All-append, Bool-cases,
}
use tiny_im.Message.{Message}
use tiny_im.Message.Json.{JsonLib}
use tiny_im.Handler.State.{SessionId, Effect, sends, closes}
use tiny_im.Session
use tiny_im.Session.{Session, fresh, Outcome, returns, threw, undefined, send}
use tiny_im.Session.Drain.{run-append}
use tiny_im.Session.Asked.{asked_by, give, give-run, give-asked, step-asked}
use tiny_im.Server
use tiny_im.Server.{Server}
use tiny_im.System.{
  System, update, deliver, heard, quiet, after_server, after_work, opened, Event, connects,
  receives, closed, works, step, run,
}

-- The messages to one session among the effects of the handler.
abbrev pub to : SessionId → List Effect → List Message
to j [] = []
to j (sends id msg ∷ xs) = if j == id then msg ∷ to j xs else to j xs
to j (closes id ∷ xs) = to j xs

-- What a handler that ended asked of the sessions.
abbrev pub effects_of : Option Server → List Effect
effects_of none = []
effects_of (some s) = s.handler.effects

asked_by-heard : (shut : Bool) (e : Session.Event) → asked_by (heard shut e) ≡ asked_by e
asked_by-heard true (Session.asks msg) = refl
asked_by-heard true Session.runs = refl
asked_by-heard true (Session.writes is_open) = refl
asked_by-heard true Session.write_fails = refl
asked_by-heard true Session.read_fails = refl
asked_by-heard false e = refl

module _ (lib : JsonLib) (j : SessionId) where
  -- The messages given to a connection since its handshake: what the handler sends to its session.
  abbrev pub given : Event → System → List Message → List Message
  given (connects id success) w l = if success then (if j == id then [] else l) else l
  given (receives env id text) w l =
      l ++ to j (effects_of (Server.step lib (Server.reads env id text) (quiet w.server)))
  given (closed id) w l =
      l ++ to j (effects_of (Server.step lib (Server.closed id) (quiet w.server)))
  given (works id e) w l = if j == id then l ++ asked_by e else l

  abbrev pub given_all : List Event → Option System → List Message → List Message
  given_all [] w l = l
  given_all (e ∷ es) none l = l
  given_all (e ∷ es) (some w) l = given_all es (step lib e w) (given e w l)

  deliver-give :
      (xs : List Effect) (lines : SessionId → Session)
      → deliver xs lines j ≡ give (to j xs) (lines j)
  unfolding deliver
  deliver-give [] lines = refl
  deliver-give (closes id ∷ xs) lines = deliver-give xs lines
  deliver-give (sends id msg ∷ xs) lines = elim (Bool-cases (j == id)) [
    | inl y ↦
        deliver-give xs (update lines id (send msg (lines id)))
        ∙ rw y (ap (λ i. give (to j xs) (send msg (lines i))) (sym ((==_iff j id).0 y)))
    | inr n ↦ deliver-give xs (update lines id (send msg (lines id))) ∙ rw n refl
  ]

  module _ (P : Session.Event → Type 0) (P-asks : (m : Message) → P (Session.asks m)) where
    -- The connection is where events of the kind lead a new one, and `l` is what it was given.
    pub record Wired (line : Session) (l : List Message) : Type 0 where
      pub events : List Session.Event
      pub kinds : All P events
      pub ran : Session.run lib events (returns fresh) ≡ returns line
      pub known : line.asked ≡ l

    All-asks : (ms : List Message) → All P (map Session.asks ms)
    All-asks [] = tt
    All-asks (m ∷ ms) = (P-asks m, All-asks ms)

    Wired-fresh : Wired fresh []
    unfolding Session.run
    Wired-fresh = record { events = []; kinds = tt; ran = refl; known = refl }

    Wired-give :
        (ms : List Message) (line : Session) (l : List Message)
        → Wired line l
        → Wired (give ms line) (l ++ ms)
    Wired-give ms line l h = record {
      events = h.events ++ map Session.asks ms;
      kinds = All-append P h.events (map Session.asks ms) h.kinds (All-asks ms);
      ran =
          run-append lib h.events (map Session.asks ms) (returns fresh)
          ∙ ap (Session.run lib (map Session.asks ms)) h.ran
          ∙ give-run lib ms line;
      known = give-asked ms line ∙ ap (λ k. k ++ ms) h.known;
    }

    Wired-step :
        (e : Session.Event) (line line' : Session) (l : List Message)
        → P e
        → Session.step lib e line ≡ returns line'
        → Wired line l
        → Wired line' (l ++ asked_by e)
    unfolding Session.run
    Wired-step e line line' l p stepped h = record {
      events = h.events ++ e ∷ [];
      kinds = All-append P h.events (e ∷ []) h.kinds (p, tt);
      ran =
          run-append lib h.events (e ∷ []) (returns fresh)
          ∙ ap (Session.run lib (e ∷ [])) h.ran
          ∙ stepped;
      known = step-asked lib e line line' stepped ∙ ap (λ k. k ++ asked_by e) h.known;
    }

    -- An event of the queue of this connection is of the kind, as the connection hears it.
    abbrev pub Fits : Event → System → Type 0
    Fits (works id e) w = P (heard (w.shut id) e) ⊎ (j ≢ id)
    Fits _ w = Unit

    abbrev pub AllFit : List Event → Option System → Type 0
    AllFit [] o = Unit
    AllFit (e ∷ es) none = Unit
    AllFit (e ∷ es) (some w) = Fits e w × AllFit es (step lib e w)

    abbrev WiredAfter : Option System → List Message → Type 0
    WiredAfter none l = Unit
    WiredAfter (some w) l = Wired (w.lines j) l

    connects-Wired :
        (id : SessionId) (success : Bool) (w : System) (o : Option Server) (l : List Message)
        → Wired (w.lines j) l
        → WiredAfter
            (opened lib id success w o)
            (if success then (if j == id then [] else l) else l)
    unfolding opened
    connects-Wired id success w none l h = tt
    connects-Wired id false w (some s) l h = h
    connects-Wired id true w (some s) l h = elim (Bool-cases (j == id)) [
      | inl y ↦ rw y Wired-fresh
      | inr n ↦ rw n h
    ]

    after_server-Wired :
        (w : System) (o : Option Server) (l : List Message)
        → Wired (w.lines j) l
        → WiredAfter (after_server w o) (l ++ to j (effects_of o))
    unfolding after_server
    after_server-Wired w none l h = tt
    after_server-Wired w (some s) l h =
        subst (λ line. Wired line (l ++ to j s.handler.effects))
          (sym (deliver-give s.handler.effects w.lines))
          (Wired-give (to j s.handler.effects) (w.lines j) l h)

    here : (id : SessionId) (e : Session.Event) → j ≡ id → P e ⊎ (j ≢ id) → P e
    here id e y (inl p) = p
    here id e y (inr n) = absurd (n y)

    after_work-Wired :
        (w : System) (id : SessionId) (e : Session.Event) (o : Outcome) (l : List Message)
        → P e ⊎ (j ≢ id)
        → Session.step lib e (w.lines id) ≡ o
        → Wired (w.lines j) l
        → WiredAfter (after_work w id o) (if j == id then l ++ asked_by e else l)
    unfolding after_work
    after_work-Wired w id e threw l f stepped h = tt
    after_work-Wired w id e undefined l f stepped h = tt
    after_work-Wired w id e (returns line) l f stepped h = elim (Bool-cases (j == id)) [
      | inl y ↦
          let same = (==_iff j id).0 y in
          rw y (
            Wired-step e (w.lines j) line l (here id e same f)
              (ap (λ i. Session.step lib e (w.lines i)) same ∙ stepped) h)
      | inr n ↦ rw n h
    ]

    step-Wired :
        (e : Event) (w : System) (l : List Message)
        → Fits e w
        → Wired (w.lines j) l
        → WiredAfter (step lib e w) (given e w l)
    unfolding step
    step-Wired (connects id success) w l f h = connects-Wired id success w _ l h
    step-Wired (receives env id text) w l f h = after_server-Wired w _ l h
    step-Wired (closed id) w l f h = after_server-Wired w _ l h
    step-Wired (works id e) w l f h =
        subst
          (λ ms.
            WiredAfter (after_work w id (Session.step lib (heard (w.shut id) e) (w.lines id)))
              (if j == id then l ++ ms else l))
          (asked_by-heard (w.shut id) e)
          (after_work-Wired w id (heard (w.shut id) e)
            (Session.step lib (heard (w.shut id) e) (w.lines id)) l f refl h)

    run-WiredAfter :
        (es : List Event) (o : Option System) (l : List Message)
        → AllFit es o
        → WiredAfter o l
        → WiredAfter (run lib es o) (given_all es o l)
    unfolding run
    run-WiredAfter [] o l f h = h
    run-WiredAfter (e ∷ es) none l f h = tt
    run-WiredAfter (e ∷ es) (some w) l f h =
        run-WiredAfter es (step lib e w) (given e w l) f.1 (step-Wired e w l f.0 h)

    pub run-Wired :
        (es : List Event) (w w' : System)
        → AllFit es (some w)
        → w.lines j ≡ fresh
        → run lib es (some w) ≡ some w'
        → Wired (w'.lines j) (given_all es (some w) [])
    run-Wired es w w' f new ran =
        subst (λ o. WiredAfter o (given_all es (some w) [])) ran
          (run-WiredAfter es (some w) [] f (subst (λ line. Wired line []) (sym new) Wired-fresh))
