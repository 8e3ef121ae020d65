-- ===== src/Log/Queue/Shutdown.antt =====
-- `stop` at the end of the program: whether `join` returns, and what is printed.
use tiny_im.Prelude.{
  ◌+◌, ◌*◌, ◌≡◌, ◌≢◌, refl, ap, sym, ◌∙◌, subst, false, List, [], ◌∷◌, ◌++◌, map, append_assoc,
  append-nil, Bytes, arith, length, ℕ, ◌≤◌,
}
use tiny_im.Log.Queue.{
  LogEntry, print_log, Pc, head, acquiring, checking, waiting, asleep, woken, draining, printing,
  relocking, done, idle, joining, Logger, wake, Awake, is_empty, advance_from, advance, Step, logs,
  notifies, sets, stops, notifies_all, works, wakes, Reach, here, next,
}
use tiny_im.Log.Queue.Order.{in_hand}
use tiny_im.Log.Queue.Drain.{at, spin, Gets, Gets-trans, Gets-drained}

-- What a thread that is told to end leaves in the queue, and what it prints before it ends.
abbrev pub left_over : Pc → List LogEntry → List LogEntry
left_over head q = q
left_over done q = q
left_over _ q = []

abbrev pub last_prints : Pc → List LogEntry → List LogEntry
last_prints head q = []
last_prints done q = []
last_prints p q = in_hand p ++ q

module _ (s : Logger) where
  ends_after :
      (k : ℕ) (t : Logger) (q : List LogEntry) (output : List Bytes)
      → k ≤ 2
      → spin k t ≡ at draining false q output s
      → Gets (3 * length q + 4) t (at done false [] (output ++ map print_log q) s)
  unfolding advance advance_from
  ends_after k t q output small e =
      let o = output ++ map print_log q in
      let (n, le, h) =
        Gets-trans k (3 * length q + 2) t (at draining false q output s) (at done false [] o s)
          (k, omega arith, e)
          (let (m, le, g) =
              Gets-trans (3 * length q + 1) 1 _ _ _ (Gets-drained false s q output)
                (1, omega arith, refl) in
            (m, omega arith, g)) in
      (n, omega arith, h)

  ends :
      (p : Pc) (q : List LogEntry) (output : List Bytes)
      → p ≢ waiting
      → Gets
          (3 * length q + 4)
          (at (wake p) false q output s)
          (at done false (left_over p q) (output ++ map print_log (last_prints p q)) s)
  unfolding advance advance_from is_empty
  ends head q output h = (1, omega arith, ap (λ o. at done false q o s) (sym (append-nil output)))
  ends acquiring [] output h = ends_after 2 _ [] output (omega arith) refl
  ends acquiring (e ∷ q) output h = ends_after 2 _ (e ∷ q) output (omega arith) refl
  ends checking [] output h = ends_after 1 _ [] output (omega arith) refl
  ends checking (e ∷ q) output h = ends_after 1 _ (e ∷ q) output (omega arith) refl
  ends waiting q output h = absurd (h refl)
  ends asleep [] output h = ends_after 2 _ [] output (omega arith) refl
  ends asleep (e ∷ q) output h = ends_after 2 _ (e ∷ q) output (omega arith) refl
  ends woken [] output h = ends_after 2 _ [] output (omega arith) refl
  ends woken (e ∷ q) output h = ends_after 2 _ (e ∷ q) output (omega arith) refl
  ends draining q output h = ends_after 0 _ q output (omega arith) refl
  ends (printing e) q output h =
      let (n, le, g) = ends_after 2 _ q (output ++ print_log e ∷ []) (omega arith) refl in
      (
        n,
        le,
        g
            ∙ ap (λ o. at done false [] o s)
                (append_assoc output (print_log e ∷ []) (map print_log q)),
      )
  ends relocking q output h = ends_after 1 _ q output (omega arith) refl
  ends done q output h = (0, omega arith, ap (λ o. at done false q o s) (sym (append-nil output)))

-- The caller waits in `join` for a thread that is blocked, and nobody is left to notify it.
pub record Hangs (s : Logger) : Type 0 where
  pub joins : s.caller ≡ joining
  pub blocked : s.pc ≡ asleep

no_way_on : {s t : Logger} → Hangs s → Step s t → t ≡ record s { pc = woken }
no_way_on h (logs e c free) = cc (h.joins)
no_way_on h (notifies c) = cc (h.joins)
no_way_on h (sets level c) = cc (h.joins)
no_way_on h (stops c) = cc (h.joins)
no_way_on h (notifies_all c) = cc (h.joins)
no_way_on h (works awake) = absurd (subst Awake h.blocked awake)
no_way_on h (wakes e) = refl

-- The state when the caller has made its calls in `stop` and waits.
abbrev pub stopped : Logger → Logger
stopped s = record s { running = false; pc = wake s.pc; caller = joining }

hangs : (s : Logger) → s.pc ≡ waiting → Hangs (advance (stopped s))
unfolding advance advance_from
hangs s p =
    subst
      (λ p.
        Hangs (advance_from (wake p) (record s { running = false; pc = wake p; caller = joining })))
      (sym p) (record { joins = refl; blocked = refl })

-- If the caller is between two calls, stop can make its two calls at once. If the thread is then
-- between a failed test of cv.wait and the moment when it blocks, it comes to a state in which it
-- is blocked, the caller waits in join and no step but a spurious wake-up is left. Anywhere else
-- the thread ends in a bounded number of its steps, and prints what is in hand and queued, unless
-- it was at the head of its loop or had ended, where the queue is left unprinted.
pub stop-cases :
    (s : Logger)
    → s.caller ≡ idle
    → Reach s (stopped s)
      × (s.pc ≡ waiting
          → (t : Logger) × Reach s t
            × Hangs t
            × ((u : Logger) → Step t u → u ≡ record t { pc = woken }))
      × (s.pc ≢ waiting
          → Gets (3 * length s.log_queue + 4) (stopped s) (
              at done false
                (left_over s.pc s.log_queue)
                (s.output ++ map print_log (last_prints s.pc s.log_queue))
                (stopped s)))
stop-cases s c =
    let r : Reach s (stopped s) = next (next here (stops c)) (notifies_all refl) in
    (
      r,
      λ p. (
        advance (stopped s),
        next r (works (subst (λ p. Awake (wake p)) (sym p) tt)),
        hangs s p,
        λ u st. no_way_on (hangs s p) st,
      ),
      ends (stopped s) s.pc s.log_queue s.output,
    )
