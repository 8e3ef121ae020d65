-- ===== src/Log/Queue/Drain.antt =====
-- The logger's thread by itself: how far it gets.
use tiny_im.Prelude.{
  ℕ, zero, suc, ◌+◌, ◌*◌, ◌≤◌, ◌≡◌, refl, sym, ap, ◌∙◌, subst, Bool, true, List, [], ◌∷◌, ◌++◌, map,
  append_assoc, append-nil, Bytes, arith, length,
}
use tiny_im.Log.Queue.{
  LogEntry, print_log, Pc, head, acquiring, checking, waiting, asleep, woken, draining, printing,
  relocking, done, Logger, fresh, Awake, is_empty, take_entry, advance_from, advance, Reach,
}
use tiny_im.Log.Queue.Order.{in_hand, Heard, Reach-IsSound}

-- So many steps of the thread, with none of the caller between them.
abbrev pub spin : ℕ → Logger → Logger
spin zero s = s
spin (suc n) s = spin n (advance s)

abbrev pub at : Pc → Bool → List LogEntry → List Bytes → Logger → Logger
at p running q output s = record s { pc = p; running = running; log_queue = q; output = output }

-- The thread gets from one state to another in no more steps than that.
abbrev pub Gets : ℕ → Logger → Logger → Type 0
Gets bound s t = (n : ℕ) × (n ≤ bound) × (spin n s ≡ t)

suc_add : (m n : ℕ) → suc m + n ≡ suc (m + n)
suc_add m n = omega arith

zero_add : (n : ℕ) → zero + n ≡ n
zero_add n = omega arith

spin-add : (m n : ℕ) (s : Logger) → spin (m + n) s ≡ spin n (spin m s)
spin-add zero n s = ap (λ k. spin k s) (zero_add n)
spin-add (suc m) n s = ap (λ k. spin k s) (suc_add m n) ∙ spin-add m n (advance s)

pub Gets-trans : (a b : ℕ) (s t u : Logger) → Gets a s t → Gets b t u → Gets (a + b) s u
Gets-trans a b s t u (m, le_a, p) (n, le_b, q) =
    (m + n, omega arith, spin-add m n s ∙ ap (spin n) p ∙ q)

-- The rounds of the inner loop, and the test that ends it.
rounds : List LogEntry → ℕ
rounds [] = 1
rounds (e ∷ q) = suc (suc (suc (rounds q)))

rounds-length : (q : List LogEntry) → rounds q ≡ 3 * length q + 1
unfolding rounds
rounds-length [] = refl
rounds-length (e ∷ q) = omega (arith, rounds-length q)

module _ (running : Bool) (s : Logger) where
  drained :
      (q : List LogEntry) (output : List Bytes)
      → spin (rounds q) (at draining running q output s)
        ≡ at head running [] (output ++ map print_log q) s
  unfolding rounds advance advance_from take_entry
  drained [] output = ap (λ o. at head running [] o s) (sym (append-nil output))
  drained (e ∷ q) output =
      drained q (output ++ print_log e ∷ [])
      ∙ ap (λ o. at head running [] o s) (append_assoc output (print_log e ∷ []) (map print_log q))

  pub Gets-drained :
      (q : List LogEntry) (output : List Bytes)
      → Gets
          (3 * length q + 1)
          (at draining running q output s)
          (at head running [] (output ++ map print_log q) s)
  Gets-drained q output = (rounds q, omega (arith, rounds-length q), drained q output)

module _ (s : Logger) where
  -- With an empty queue the thread blocks.
  Gets-asleep :
      (output : List Bytes) → Gets 4 (at head true [] output s) (at asleep true [] output s)
  unfolding advance advance_from is_empty
  Gets-asleep output = (4, omega arith, refl)

  drains :
      (q : List LogEntry) (output : List Bytes)
      → Gets
          (3 * length q + 5)
          (at draining true q output s)
          (at asleep true [] (output ++ map print_log q) s)
  drains q output =
      let (n, le, e) =
        Gets-trans (3 * length q + 1) 4 _ _ _ (Gets-drained true s q output)
          (Gets-asleep (output ++ map print_log q)) in
      (n, omega arith, e)

  -- Some steps on the way to the inner loop.
  drains_after :
      (k : ℕ) (t : Logger) (q : List LogEntry) (output : List Bytes)
      → k ≤ 3
      → spin k t ≡ at draining true q output s
      → Gets (3 * length q + 8) t (at asleep true [] (output ++ map print_log q) s)
  drains_after k t q output small e =
      let (n, le, h) =
        Gets-trans k (3 * length q + 5) t (at draining true q output s)
          (at asleep true [] (output ++ map print_log q) s) (k, omega arith, e) (drains q output) in
      (n, omega arith, h)

  nothing_more :
      (output : List Bytes) → at asleep true [] output s ≡ at asleep true [] (output ++ []) s
  nothing_more output = ap (λ o. at asleep true [] o s) (sym (append-nil output))

  settles :
      (p : Pc) (q : List LogEntry) (output : List Bytes)
      → Awake p
      → (p ≡ waiting → q ≡ [])
      → Gets
          (3 * length q + 8)
          (at p true q output s)
          (at asleep true [] (output ++ map print_log (in_hand p ++ q)) s)
  unfolding advance advance_from is_empty
  settles head [] output a h = (4, omega arith, nothing_more output)
  settles head (e ∷ q) output a h = drains_after 3 _ (e ∷ q) output (omega arith) refl
  settles acquiring [] output a h = (3, omega arith, nothing_more output)
  settles acquiring (e ∷ q) output a h = drains_after 2 _ (e ∷ q) output (omega arith) refl
  settles woken [] output a h = (3, omega arith, nothing_more output)
  settles woken (e ∷ q) output a h = drains_after 2 _ (e ∷ q) output (omega arith) refl
  settles checking [] output a h = (2, omega arith, nothing_more output)
  settles checking (e ∷ q) output a h = drains_after 1 _ (e ∷ q) output (omega arith) refl
  settles waiting [] output a h = (1, omega arith, nothing_more output)
  settles waiting (e ∷ q) output a h = cc (h refl)
  settles draining q output a h = drains_after 0 _ q output (omega arith) refl
  settles (printing e) q output a h =
      let (n, le, g) = drains_after 2 _ q (output ++ print_log e ∷ []) (omega arith) refl in
      (
        n,
        le,
        g
            ∙ ap (λ o. at asleep true [] o s)
                (append_assoc output (print_log e ∷ []) (map print_log q)),
      )
  settles relocking q output a h = drains_after 1 _ q output (omega arith) refl
  settles asleep q output a h = absurd a
  settles done q output a h = absurd a

waiting_empty : (s : Logger) → Heard s.pc s.caller s.log_queue → s.pc ≡ waiting → s.log_queue ≡ []
waiting_empty s h e = subst (λ p. Heard p s.caller s.log_queue) e h

-- From every reachable state of the logger in which it runs and its thread is not blocked, the
-- thread by itself comes to block within three steps for each queued entry and eight more, with an
-- empty queue and every entry printed.
pub spin-settles :
    (s : Logger)
    → Reach fresh s
    → s.running ≡ true
    → Awake s.pc
    → Gets
        (3 * length s.log_queue + 8)
        s
        (at asleep true [] (s.output ++ map print_log (in_hand s.pc ++ s.log_queue)) s)
spin-settles s r running awake =
    subst
      (λ b.
        Gets (3 * length s.log_queue + 8) (at s.pc b s.log_queue s.output s)
          (at asleep true [] (s.output ++ map print_log (in_hand s.pc ++ s.log_queue)) s))
      (sym running)
      (settles s s.pc s.log_queue s.output awake (waiting_empty s (Reach-IsSound r).heard))
