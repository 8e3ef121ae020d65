-- ===== src/Service/Shown.antt =====
-- When a state of the handler shows a state of the service, and what is asked of the surroundings.
use mathlib.Core.List.{Perm, Mem}
use tiny_im.Prelude.{◌≡◌, true, List, ◌++◌, append-nil, sym, select}
use tiny_im.Prelude.Int.{ℤ}
use tiny_im.Message.{Message}
use tiny_im.Message.Types.{MessageType, pull_message}
use tiny_im.Database.Schema.{StoredMessage}
use tiny_im.Database.Engine.{Works, ReadsAll}
use tiny_im.Database.Credentials.{InBounds}
use tiny_im.Database.Contract.{is_recent}
use tiny_im.Database.Contract.{Represents}
use tiny_im.Database.Messages.Pulls.{is_readable}
use tiny_im.Handler.State.{SessionId, State, Env}
use tiny_im.Handler.Dispatch.Keeps.{Event, arrives, disconnects}
use tiny_im.Service.{Service, Outcome, silent, sender}

pub record Shown (s : State) (p : Service) : Type 0 where
  pub same_sessions : s.sessions ≡ p.sessions
  pub represents : Represents s.db p.view

-- A run from `s` to `s'` with this outcome.
pub record Meets (s s' : State) (o : Outcome) : Type 0 where
  pub effects : s'.effects ≡ s.effects ++ o.0
  pub shown : Shown s' o.1

-- SQLite works and reads all rows, the random draws are in their bounds, and a loop over the session map visits each entry once.
pub record IsFit (env : Env) : Type 0 where
  pub works : Works env.engine
  pub reads : ReadsAll env.engine
  pub bounds : InBounds env.random
  pub visits : (m : List (ℤ × SessionId)) → Perm (env.visits m) m

-- A pull can read its rows.
abbrev pub CanRead : MessageType → Env → Message → State → Type 0
CanRead pull_message env msg s =
    (m : StoredMessage)
    → Mem m (select (is_recent env.now 1 (sender msg)) s.db.tables.messages)
    → is_readable env.now m ≡ true
CanRead _ env msg s = Unit {0}

abbrev pub IsServed : Event → State → Type 0
IsServed (arrives env session msg) s = IsFit env × CanRead msg.message_type env msg s
IsServed (disconnects session) s = Unit {0}

pub Meets-silent : (s : State) (p : Service) → Shown s p → Meets s s (silent p)
Meets-silent s p h = record { effects = sym (append-nil s.effects); shown = h }
