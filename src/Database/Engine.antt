-- ===== src/Database/Engine.antt =====
-- SQLite as a parameter: what it decides by itself. What a statement does to the rows is its text
-- in Database.cpp, written out in the modules beside this one.
use mathlib.Core.List.{Perm}
use tiny_im.Prelude.{ℕ, ◌≡◌, Bool, true, List}
use tiny_im.Database.Schema.{Tables, Statement, User, Friend, StoredMessage, OfflineMessage}

pub record Engine : Type 0 where
  -- Does the n-th `sqlite3_open` of a call of `init` succeed?
  pub opens : ℕ → Bool
  -- Does `sqlite3_prepare_v2` return SQLITE_OK on an open connection?
  pub prepares : Tables → Statement → Bool
  -- Does `sqlite3_step` of a writing statement that breaks no constraint return SQLITE_DONE?
  pub writes : Tables → Statement → Bool
  -- The rows for which `sqlite3_step` of a SELECT returns SQLITE_ROW, in its order, among those
  -- that the statement selects.
  pub scan_users : List User → List User
  pub scan_friends : List Friend → List Friend
  pub scan_join : List (Friend × User) → List (Friend × User)
  pub scan_messages : List StoredMessage → List StoredMessage
  pub scan_offline : List OfflineMessage → List OfflineMessage

-- A SELECT that meets no error returns each row once, in an order that SQL leaves open.
pub record ReadsAll (e : Engine) : Type 0 where
  pub users_all : (l : List User) → Perm (e.scan_users l) l
  pub friends_all : (l : List Friend) → Perm (e.scan_friends l) l
  pub join_all : (l : List (Friend × User)) → Perm (e.scan_join l) l
  pub messages_all : (l : List StoredMessage) → Perm (e.scan_messages l) l
  pub offline_all : (l : List OfflineMessage) → Perm (e.scan_offline l) l

-- Every statement is prepared and every write that the constraints allow is done.
pub record Works (e : Engine) : Type 0 where
  pub prepares_all : (t : Tables) (s : Statement) → e.prepares t s ≡ true
  pub writes_all : (t : Tables) (s : Statement) → e.writes t s ≡ true
