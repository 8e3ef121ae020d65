-- ===== src/Examples/Witnesses/OfLog.antt =====
-- The logger with one entry, and at its end.
use tiny_im.Prelude.{◌+◌, ◌*◌, ◌≡◌, refl, true, ◌++◌, [], map, length, codes}
use tiny_im.Log.{warning}
use tiny_im.Log.Queue.{
  LogEntry, waiting, asleep, woken, idle, Logger, fresh, log, print_log, advance, Step, logs, works,
  Reach, here, next,
}
use tiny_im.Log.Queue.Order.{in_hand, Ordered, Reach-in_order}
use tiny_im.Log.Queue.Drain.{at, Gets, spin-settles}
use tiny_im.Log.Queue.Shutdown.{Hangs, stop-cases}

abbrev entry : LogEntry
entry = record { level = warning; message = codes "low" }

abbrev busy : Logger
busy = log entry fresh

busy_reached : Reach fresh busy
busy_reached = next here (logs entry refl refl)

Reach-in_order_example :
    Ordered busy.pc busy.log_queue busy.logged busy.output
    × (busy.pc ≡ asleep → busy.caller ≡ idle → busy.output ≡ map print_log busy.logged)
Reach-in_order_example = Reach-in_order busy_reached

spin-settles_example :
    Gets
      (3 * length busy.log_queue + 8)
      busy
      (at asleep true [] (busy.output ++ map print_log (in_hand busy.pc ++ busy.log_queue)) busy)
spin-settles_example = spin-settles busy busy_reached (unfold log in refl) (unfold log in tt)

-- The thread has found the queue empty and is about to block.
blocking : Logger
blocking = advance (advance (advance fresh))

blocking_reached : Reach fresh blocking
unfolding blocking advance
blocking_reached = next (next (next here (works tt)) (works tt)) (works tt)

blocking_waits : blocking.pc ≡ waiting
unfolding blocking advance
blocking_waits = refl

stop-cases_example :
    (t : Logger) × Reach blocking t
    × Hangs t
    × ((u : Logger) → Step t u → u ≡ record t { pc = woken })
stop-cases_example = (stop-cases blocking (unfold blocking advance in refl)).1 blocking_waits
