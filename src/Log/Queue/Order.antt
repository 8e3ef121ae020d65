-- ===== src/Log/Queue/Order.antt =====
-- The entries of the log on their way from `log` to the console.
use tiny_im.Prelude.{
  ◌≡◌, subst, ltb, refl, sym, ap, ◌∙◌, Bool, true, false, not, ◌||◌, List, [], ◌∷◌, ◌++◌, map,
  append_assoc, append-nil, map-append, if◌then◌else◌, Bytes, Bool-cases, inl, inr,
}
use tiny_im.Log.Queue.{
  rank, LogEntry, print_log, Pc, head, acquiring, checking, waiting, asleep, woken, draining,
  printing, relocking, done, Caller, idle, notifying, stopping, joining, Logger, fresh, holds_mutex,
  wake, log, is_empty, take_entry, advance_from, advance, Step, logs, notifies, sets, stops,
  notifies_all, works, wakes, Reach, here, next,
}

-- The entry that was taken from the queue and is not printed yet.
abbrev pub in_hand : Pc → List LogEntry
in_hand (printing e) = e ∷ []
in_hand _ = []

-- Entries leave in the order in which they came, none twice and none lost.
abbrev pub Ordered : Pc → List LogEntry → List LogEntry → List Bytes → Type 0
Ordered p q logged output =
    (printed : List LogEntry) × (output ≡ map print_log printed)
    × (logged ≡ printed ++ (in_hand p ++ q))

abbrev EmptyUnless : Caller → List LogEntry → Type 0
EmptyUnless notifying q = Unit
EmptyUnless idle q = q ≡ []
EmptyUnless stopping q = q ≡ []
EmptyUnless joining q = q ≡ []

-- Where the thread blocks or is about to, the queue is empty or a notification is on its way.
abbrev pub Heard : Pc → Caller → List LogEntry → Type 0
Heard waiting c q = q ≡ []
Heard asleep c q = EmptyUnless c q
Heard _ c q = Unit

pub record IsSound (s : Logger) : Type 0 where
  pub ordered : Ordered s.pc s.log_queue s.logged s.output
  pub heard : Heard s.pc s.caller s.log_queue

in_hand-wake : (p : Pc) → in_hand (wake p) ≡ in_hand p
in_hand-wake asleep = refl
in_hand-wake head = refl
in_hand-wake _ = refl

EmptyUnless-nil : (c : Caller) (q : List LogEntry) → q ≡ [] → EmptyUnless c q
EmptyUnless-nil notifying q h = tt
EmptyUnless-nil _ q h = h

Heard-wake : (p : Pc) (c c' : Caller) (q : List LogEntry) → Heard p c q → Heard (wake p) c' q
Heard-wake waiting c c' q h = h
Heard-wake _ c c' q h = tt

take_entry-IsSound :
    (s : Logger) (q : List LogEntry)
    → Ordered draining q s.logged s.output
    → s.log_queue ≡ q
    → IsSound (take_entry s q)
unfolding take_entry
take_entry-IsSound s [] o e = record { ordered = (o.0, o.1, rw e o.2); heard = tt }
take_entry-IsSound s (e ∷ q) o _ = record { ordered = o; heard = tt }

branch :
    (s : Logger) (b : Bool) (p p' : Pc)
    → (in_hand p ≡ []) × (in_hand p' ≡ [])
    → Ordered head s.log_queue s.logged s.output
    → (b ≡ true → Heard p s.caller s.log_queue)
    → (b ≡ false → Heard p' s.caller s.log_queue)
    → IsSound (record s { pc = if b then p else p' })
branch s true p p' h o then_ok else_ok = record {
  ordered = (o.0, o.1, o.2 ∙ ap (λ l. o.0 ++ (l ++ s.log_queue)) (sym h.0));
  heard = then_ok refl;
}
branch s false p p' h o then_ok else_ok = record {
  ordered = (o.0, o.1, o.2 ∙ ap (λ l. o.0 ++ (l ++ s.log_queue)) (sym h.1));
  heard = else_ok refl;
}

checked_empty :
    (running : Bool) (q : List LogEntry) → (not (is_empty q) || not running) ≡ false → q ≡ []
unfolding is_empty
checked_empty running [] h = refl
checked_empty running (e ∷ q) h = cc

advance_from-IsSound :
    (p : Pc) (s : Logger)
    → Ordered p s.log_queue s.logged s.output
    → Heard p s.caller s.log_queue
    → s.pc ≡ p
    → IsSound (advance_from p s)
unfolding advance_from
advance_from-IsSound head s o h e =
    branch s s.running acquiring done (refl, refl) o (λ _. tt) (λ _. tt)
advance_from-IsSound acquiring s o h e = record { ordered = o; heard = tt }
advance_from-IsSound checking s o h e =
    branch s (not (is_empty s.log_queue) || not s.running) draining waiting (refl, refl) o (λ _. tt)
      (checked_empty s.running s.log_queue)
advance_from-IsSound waiting s o h e = record {
  ordered = o;
  heard = EmptyUnless-nil s.caller s.log_queue h;
}
advance_from-IsSound woken s o h e = record { ordered = o; heard = tt }
advance_from-IsSound draining s o h e = take_entry-IsSound s s.log_queue o refl
advance_from-IsSound (printing entry) s o h e = record {
  ordered = (
    o.0 ++ entry ∷ [],
    ap (λ l. l ++ print_log entry ∷ []) o.1 ∙ sym (map-append print_log o.0 (entry ∷ [])),
    o.2 ∙ sym (append_assoc o.0 (entry ∷ []) s.log_queue),
  );
  heard = tt;
}
advance_from-IsSound relocking s o h e = record { ordered = o; heard = tt }
advance_from-IsSound asleep s o h e = record { ordered = rw e o; heard = rw e h }
advance_from-IsSound done s o h e = record { ordered = rw e o; heard = rw e h }

Heard-notifying : (p : Pc) (q : List LogEntry) → holds_mutex p ≡ false → Heard p notifying q
Heard-notifying waiting q h = cc
Heard-notifying _ q h = tt

Heard-stopping : (p : Pc) (q : List LogEntry) → Heard p idle q → Heard p stopping q
Heard-stopping waiting q h = h
Heard-stopping asleep q h = h
Heard-stopping _ q h = tt

log-IsSound :
    (e : LogEntry) (s : Logger)
    → s.caller ≡ idle
    → holds_mutex s.pc ≡ false
    → IsSound s
    → IsSound (log e s)
unfolding log
log-IsSound e s c free h = elim (Bool-cases (ltb (rank e.level) (rank s.log_level))) [
  | inl below ↦ rw below h
  | inr heard ↦ rw heard (record {
    ordered = (
      h.ordered.0,
      h.ordered.1,
      ap (λ l. l ++ e ∷ []) h.ordered.2
          ∙ append_assoc h.ordered.0 (in_hand s.pc ++ s.log_queue) (e ∷ [])
          ∙ ap (◌++◌ h.ordered.0) (append_assoc (in_hand s.pc) s.log_queue (e ∷ [])),
    );
    heard = Heard-notifying s.pc (s.log_queue ++ e ∷ []) free;
  })
]

pub Step-IsSound : {s t : Logger} → Step s t → IsSound s → IsSound t
unfolding advance
Step-IsSound {s} (logs e c free) h = log-IsSound e s c free h
Step-IsSound {s} (notifies c) h = record {
  ordered = rw (in_hand-wake s.pc) h.ordered;
  heard = Heard-wake s.pc s.caller idle s.log_queue h.heard;
}
Step-IsSound (sets level c) h = record { ordered = h.ordered; heard = h.heard }
Step-IsSound {s} (stops c) h = record {
  ordered = h.ordered;
  heard = Heard-stopping s.pc s.log_queue (subst (λ k. Heard s.pc k s.log_queue) c h.heard);
}
Step-IsSound {s} (notifies_all c) h = record {
  ordered = rw (in_hand-wake s.pc) h.ordered;
  heard = Heard-wake s.pc s.caller joining s.log_queue h.heard;
}
Step-IsSound {s} (works awake) h = advance_from-IsSound s.pc s h.ordered h.heard refl
Step-IsSound {s} (wakes e) h = record { ordered = rw e at (h.ordered); heard = tt }

pub Reach-IsSound : {s : Logger} → Reach fresh s → IsSound s
Reach-IsSound here = record { ordered = ([], refl, refl); heard = tt }
Reach-IsSound (next r st) = Step-IsSound st (Reach-IsSound r)

pub asleep_empty : {s : Logger} → IsSound s → s.pc ≡ asleep → s.caller ≡ idle → s.log_queue ≡ []
asleep_empty {s} h p c =
    subst (λ k. EmptyUnless k s.log_queue) c (subst (λ p. Heard p s.caller s.log_queue) p h.heard)

all_printed :
    (p : Pc) (q logged : List LogEntry) (output : List Bytes)
    → Ordered p q logged output
    → p ≡ asleep
    → q ≡ []
    → output ≡ map print_log logged
all_printed p q logged output o blocked empty =
    o.1
    ∙ ap (map print_log) (
        sym
          (o.2 ∙ ap (λ p. o.0 ++ (in_hand p ++ q)) blocked ∙ ap (◌++◌ o.0) empty ∙ append-nil o.0))

-- In every state that the caller and the thread of the logger reach, the console holds the entries
-- that log put into the queue, in this order, none twice and none lost, up to the one in hand and
-- those still queued; where the thread is blocked and the caller between two calls, the console
-- holds all of them.
pub Reach-in_order :
    {s : Logger}
    → Reach fresh s
    → Ordered s.pc s.log_queue s.logged s.output
      × (s.pc ≡ asleep → s.caller ≡ idle → s.output ≡ map print_log s.logged)
Reach-in_order {s} r =
    let h = Reach-IsSound r in
    (
      h.ordered,
      λ p c. all_printed s.pc s.log_queue s.logged s.output h.ordered p (asleep_empty h p c),
    )
