-- ===== src/Log/Queue.antt =====
-- inc/Log.h: `log`, `printLog`, the thread that runs `processEntries`, and `stop`. Every call of `log`
-- and the destructor are on the one thread of the server, here the caller.
pub mod Order
pub mod Drain
pub mod Shutdown
use tiny_im.Prelude.{
  ℕ, ◌≡◌, Bool, true, false, not, ◌||◌, List, [], ◌∷◌, ◌++◌, if◌then◌else◌, ltb, Bytes, codes,
}
use tiny_im.Prelude.Int.{ℤ}
use tiny_im.Decimal.{to_string}
use tiny_im.Log.{LogLevel, debug, info, warning, error, set_log_level, format_impl}

pub record LogEntry : Type 0 where
  pub level : LogLevel
  pub message : Bytes

-- The order of the enumerators.
rank : LogLevel → ℕ
rank debug = 0
rank info = 1
rank warning = 2
rank error = 3

-- The text that `log` puts into the queue.
unfoldable pub located : Bytes → ℤ → Bytes → Bytes → List Bytes → Bytes
located file line func format args =
    codes "["
    ++ (file
        ++ (codes ":"
            ++ (to_string line
                ++ (codes " - " ++ (func ++ (codes "] " ++ format_impl format args))))))

-- Escape sequences begin with the code 27.
color_code : LogLevel → Bytes
color_code debug = 27 ∷ codes "[1;34m"
color_code info = 27 ∷ codes "[1;32m"
color_code warning = 27 ∷ codes "[1;33m"
color_code error = 27 ∷ codes "[1;31m"

level_str : LogLevel → Bytes
level_str debug = codes "DEBUG"
level_str info = codes "INFO"
level_str warning = codes "WARNING"
level_str error = codes "ERROR"

-- What one entry puts on the console, with the end of the line.
unfoldable pub print_log : LogEntry → Bytes
unfolding color_code level_str
print_log e =
    color_code e.level
    ++ (codes "["
        ++ (level_str e.level ++ (codes "] " ++ (e.message ++ (27 ∷ (codes "[0m" ++ 10 ∷ []))))))

-- Where the thread stands. It holds the mutex in `checking`, in `waiting`, which is between a failed
-- test of `cv.wait` and the moment when it blocks and lets go of the mutex, and in `draining`.
pub data Pc : Type 0 where
  head : Pc
  acquiring : Pc
  checking : Pc
  waiting : Pc
  asleep : Pc
  woken : Pc
  draining : Pc
  printing : LogEntry → Pc
  relocking : Pc
  done : Pc

-- Where the caller stands: between two calls, before `notify_one` in `log`, before `notify_all` in
-- `stop`, and in `join`.
pub data Caller : Type 0 where
  idle : Caller
  notifying : Caller
  stopping : Caller
  joining : Caller

-- `logged` and `output` record what happened: the entries that `log` put into the queue, and the
-- console.
pub record Logger : Type 0 where
  pub running : Bool
  pub log_queue : List LogEntry
  pub log_level : LogLevel
  pub pc : Pc
  pub caller : Caller
  pub logged : List LogEntry
  pub output : List Bytes

abbrev pub fresh : Logger
fresh = record {
  running = true;
  log_queue = [];
  log_level = debug;
  pc = head;
  caller = idle;
  logged = [];
  output = [];
}

abbrev pub holds_mutex : Pc → Bool
holds_mutex checking = true
holds_mutex waiting = true
holds_mutex draining = true
holds_mutex _ = false

-- A notification wakes the thread only if it is blocked.
abbrev pub wake : Pc → Pc
wake asleep = woken
wake p = p

-- Whether the thread can go on by itself.
abbrev pub Awake : Pc → Type 0
Awake asleep = ⊥
Awake done = ⊥
Awake _ = Unit

-- `log` up to the end of its critical section.
unfoldable pub log : LogEntry → Logger → Logger
unfolding rank
log e s = if ltb (rank e.level) (rank s.log_level) then s else record s {
  log_queue = s.log_queue ++ e ∷ [];
  logged = s.logged ++ e ∷ [];
  caller = notifying;
}

is_empty : List LogEntry → Bool
is_empty [] = true
is_empty (e ∷ q) = false

-- The inner loop of `processEntries`.
take_entry : Logger → List LogEntry → Logger
take_entry s [] = record s { pc = head }
take_entry s (e ∷ q) = record s { log_queue = q; pc = printing e }

-- One step of `processEntries`.
advance_from : Pc → Logger → Logger
advance_from head s = record s { pc = if s.running then acquiring else done }
advance_from acquiring s = record s { pc = checking }
advance_from checking s = record s {
  pc = if not (is_empty s.log_queue) || not s.running then draining else waiting;
}
advance_from waiting s = record s { pc = asleep }
advance_from woken s = record s { pc = checking }
advance_from draining s = take_entry s s.log_queue
advance_from (printing e) s = record s { output = s.output ++ print_log e ∷ []; pc = relocking }
advance_from relocking s = record s { pc = draining }
advance_from asleep s = s
advance_from done s = s

unfoldable pub advance : Logger → Logger
unfolding advance_from is_empty take_entry
advance s = advance_from s.pc s

-- The two threads interleave in any order; a blocked thread may also wake up by itself.
pub data Step (s : Logger) : Logger → Type 0 where
  logs : (e : LogEntry) → s.caller ≡ idle → holds_mutex s.pc ≡ false → Step s (log e s)
  notifies : s.caller ≡ notifying → Step s (record s { pc = wake s.pc; caller = idle })
  sets : (level : Bytes) → s.caller ≡ idle → Step s (record s { log_level = set_log_level level })
  stops : s.caller ≡ idle → Step s (record s { running = false; caller = stopping })
  notifies_all : s.caller ≡ stopping → Step s (record s { pc = wake s.pc; caller = joining })
  works : Awake s.pc → Step s (advance s)
  wakes : s.pc ≡ asleep → Step s (record s { pc = woken })

pub data Reach (s : Logger) : Logger → Type 0 where
  here : Reach s s
  next : {t u : Logger} → Reach s t → Step t u → Reach s u
