-- ===== src/System/Lines.antt =====
-- A run of one connection inside the system.
use tiny_im.Prelude.{
  ◌≡◌, refl, ap, sym, ◌∙◌, ◌≢◌, Bool, true, false, List, [], ◌∷◌, map, some, ◌==◌, ==_iff, arith,
}
use tiny_im.Message.Json.{JsonLib}
use tiny_im.Handler.State.{SessionId}
use tiny_im.Session
use tiny_im.Session.{Session, Outcome, returns, threw, undefined}
use tiny_im.Server
use tiny_im.Server.{Server}
use tiny_im.System.{told, System, update, heard, works, after_work, step, run}

module _ (lib : JsonLib) (id : SessionId) where
  run-threw : (es : List Session.Event) → Session.run lib es threw ≡ threw
  unfolding Session.run
  run-threw [] = refl
  run-threw (e ∷ es) = refl

  run-undefined : (es : List Session.Event) → Session.run lib es undefined ≡ undefined
  unfolding Session.run
  run-undefined [] = refl
  run-undefined (e ∷ es) = refl

  -- The events of one connection reach its queue and no other.
  pub record Reaches (w : System) (es : List Session.Event) (s : Session) : Type 0 where
    pub last : System
    pub runs_to : run lib (map (works id) es) (some w) ≡ some last
    pub own : last.lines id ≡ s
    pub still_open : last.shut id ≡ false
    pub others : (j : SessionId) → j ≢ id → last.lines j ≡ w.lines j
    pub handler_kept : last.server.handler ≡ w.server.handler

  threw_returns : {s : Session} → threw ≡ returns s → ⊥
  threw_returns h = cc

  undefined_returns : {s : Session} → undefined ≡ returns s → ⊥
  undefined_returns h = cc

  pub updated : (w : System) (s : Session) → update w.lines id s id ≡ s
  updated w s = ground (arith, ==_iff id id)

  pub untouched :
      (w : System) (s : Session) (j : SessionId) → j ≢ id → update w.lines id s j ≡ w.lines j
  untouched w s j h = ground (arith, ==_iff j id)

  told-handler : (same : Bool) (server : Server) → (told id same server).handler ≡ server.handler
  unfolding told Server.stop Server.remove_session
  told-handler true server = refl
  told-handler false server = refl

  Reaches-cons :
      (e : Session.Event) (es : List Session.Event) (w : System) (s : Session)
      → ((w' : System)
          → w'.shut id ≡ false
          → Session.run lib es (returns (w'.lines id)) ≡ returns s
          → Reaches w' es s)
      → w.shut id ≡ false
      → (o : Outcome) → Session.step lib e (w.lines id) ≡ o
      → Session.run lib es o ≡ returns s
      → Reaches w (e ∷ es) s
  unfolding run step after_work
  Reaches-cons e es w s rest still (returns s') stepped h =
      let w' : System = record {
        server = told id (s'.stops == (w.lines id).stops) w.server;
        lines = update w.lines id s';
        shut = w.shut;
      } in
      let r = rest w' still (ap (λ l. Session.run lib es (returns l)) (updated w s') ∙ h) in
      record {
        last = r.last;
        runs_to =
            ap
              (λ b.
                run lib (map (works id) es)
                  (after_work w id (Session.step lib (heard b e) (w.lines id))))
              still
            ∙ ap (λ o. run lib (map (works id) es) (after_work w id o)) (as_heard e ∙ stepped)
            ∙ r.runs_to;
        own = r.own;
        still_open = r.still_open;
        others = λ j n. r.others j n ∙ untouched w s' j n;
        handler_kept = r.handler_kept ∙ told-handler (s'.stops == (w.lines id).stops) w.server;
      }
    where
      as_heard :
          (e : Session.Event)
          → Session.step lib (heard false e) (w.lines id) ≡ Session.step lib e (w.lines id)
      as_heard e = refl
  Reaches-cons e es w s rest still threw stepped h =
      elim (threw_returns (sym (run-threw es) ∙ h)) [ ]
  Reaches-cons e es w s rest still undefined stepped h =
      elim (undefined_returns (sym (run-undefined es) ∙ h)) [ ]

  pub run-Reaches :
      (es : List Session.Event) (w : System) (s : Session)
      → w.shut id ≡ false
      → Session.run lib es (returns (w.lines id)) ≡ returns s
      → Reaches w es s
  unfolding run Session.run
  run-Reaches [] w s still h = record {
    last = w;
    runs_to = refl;
    own = cc;
    still_open = still;
    others = λ j n. refl;
    handler_kept = refl;
  }
  run-Reaches (e ∷ es) w s still h =
      Reaches-cons e es w s (λ w' o' h'. run-Reaches es w' s o' h') still
        (Session.step lib e (w.lines id)) refl h
