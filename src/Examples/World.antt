-- ===== src/Examples/World.antt =====
-- A small world: an engine that works, two open connections, and two users, 111 and 222.
use mathlib.Core.List.{reverse, reverse_perm}
use mathlib.Core.List.Perm
use tiny_im.Prelude.{ℕ, ◌+◌, ◌%◌, refl, true, List, [], ◌∷◌, some, arith, Bytes, codes}
use tiny_im.Prelude.Int.{pos}
use tiny_im.Message.{Message}
use tiny_im.Message.Types.{MessageType}
use tiny_im.Database.Schema.{Tables, User, Friend, no_rows}
use tiny_im.Database.Engine.{Engine, Works, ReadsAll}
use tiny_im.Database.Pool.{Connection, Db}
use tiny_im.Database.Pool.Frame.{IsHealthy}
use tiny_im.Database.Credentials.{Random, InBounds}
use tiny_im.Handler.State.{State, Env}

abbrev pub engine : Engine
engine = record {
  opens = λ n. true;
  prepares = λ t s. true;
  writes = λ t s. true;
  scan_users = λ l. l;
  scan_friends = reverse;
  scan_join = reverse;
  scan_messages = λ l. l;
  scan_offline = λ l. l;
}

pub engine-Works : Works engine
engine-Works = record { prepares_all = λ t s. refl; writes_all = λ t s. refl }

pub engine-ReadsAll : ReadsAll engine
engine-ReadsAll = record {
  users_all = λ l. Perm.refl l;
  friends_all = λ l. reverse_perm l;
  join_all = λ l. reverse_perm l;
  messages_all = λ l. Perm.refl l;
  offline_all = λ l. Perm.refl l;
}

-- A stand-in for SHA256 that tells texts apart by the sum of their bytes.
pub total : Bytes → ℕ
total [] = 0
total (c ∷ s) = c + total s

unfoldable pub checksum : Bytes → Bytes
unfolding total
checksum s = total s % 256 ∷ []

abbrev pub random : Random
random = record { draw = λ i. i % 9; salt_byte = λ i. i % 256 }

pub random-InBounds : InBounds random
random-InBounds = record { draw_lt = λ i. omega arith; salt_byte_lt = λ i. omega arith }

abbrev pub env : Env
env = record {
  engine = engine;
  sha256 = checksum;
  random = random;
  now = 1000;
  garbage = pos 77;
  visits = reverse;
}

abbrev pub user_111 : User
user_111 = record {
  user_id = codes "111";
  username = some (codes "ann");
  password_hash = codes "00";
  salt = codes "ab";
}

abbrev pub user_222 : User
user_222 = record {
  user_id = codes "222";
  username = some (codes "bob");
  password_hash = codes "00";
  salt = codes "cd";
}

abbrev pub row : Bytes → Bytes → ℕ → Friend
row a b n = record { user_id = a; friend_id = b; status = n }

abbrev pub tables : Tables
tables = record no_rows {
  users = user_111 ∷ user_222 ∷ [];
  friends = row (codes "111") (codes "222") 1 ∷ row (codes "222") (codes "111") 1 ∷ [];
}

abbrev pub connections : List Connection
connections = record { number = 0; opened = true } ∷ record { number = 1; opened = true } ∷ []

abbrev pub db : Db
db = record { tables = tables; pool = connections }

pub db-IsHealthy : IsHealthy db
db-IsHealthy = record { some_left = omega arith; all_open = (refl, (refl, tt)) }

-- User 111 has session 1 and user 222 session 2.
abbrev pub state : State
state = record { sessions = (pos 111, 1) ∷ (pos 222, 2) ∷ []; db = db; effects = [] }

abbrev pub message : ℕ → ℕ → MessageType → Bytes → Message
message from to type content = record {
  from_user_id = pos from;
  to_user_id = pos to;
  message_type = type;
  message_id = pos 5;
  content = content;
  timestamp = pos 1000;
}
