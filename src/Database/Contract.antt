-- ===== src/Database/Contract.antt =====
-- What `Database` promises, without rows, pools or connections: accounts by id, the status of each
-- ordered pair of users, the messages kept for each id, and the conversation.
pub mod Accounts
pub mod Pairs
pub mod Writes
pub mod Users
pub mod Reads
pub mod Pulls
pub mod Listing
pub mod Refinement
use tiny_im.Prelude.{
  leb, ◌*◌, ◌+◌, ◌&&◌, ℕ, suc, ◌≡◌, Bool, true, false, ◌||◌, List, [], ◌∷◌, ◌++◌, map, Option, none,
  some, if◌then◌else◌, Bytes, c_str, same, select, ◌>>=◌, ◌==◌,
}
use tiny_im.Database.Schema.{Tables, User, Friend, StoredMessage}
use tiny_im.Database.Pool.{Db}
use tiny_im.Database.Pool.Frame.{IsHealthy}
use tiny_im.Database.Credentials.{Random, InBounds, generate_uuid, generate_salt, hash_password}
use tiny_im.Database.Users.{has_id}
use tiny_im.Database.Friends.{is_pair}
use tiny_im.Database.Friends.Rows.{same_pair, or_else, set_to}
use mathlib.Core.List.{Mem}
use tiny_im.Message.{Message}
use tiny_im.Database.Messages.Pulls.{is_readable}
use tiny_im.Database.Messages.Offline.{kept}
use tiny_im.Database.Calls.{
  Call, registers, renames, authenticates, adds, acks, removes, keeps, names_user, lists_names,
  lists_ids, gets_kept, marks, stores, pulls,
}

pub record Account : Type 0 where
  pub name : Bytes
  pub password_hash : Bytes
  pub salt : Bytes

pub record View : Type 0 where
  pub account : Bytes → Option Account
  pub status : Bytes → Bytes → Option ℕ
  pub kept_of : Bytes → List Bytes
  pub talk : List StoredMessage
  pub sequence : ℕ  -- of the row ids

abbrev pub enroll : Bytes → Account → Option Account → View → View
enroll id a (some taken) v = v
enroll id a none v = record v { account = λ k. if same id k then some a else v.account k }

-- What a registration returns: the id, if it was free.
abbrev pub issued : Bytes → Option Account → Option Bytes
issued id none = some id
issued id (some taken) = none

abbrev pub named : Bytes → Option Account → Option Account
named name none = none
named name (some a) = some (record a { name = name })

-- What a call does to the promised view. A call that only reads leaves it.
unfoldable pub does : (Bytes → Bytes) → View → Call → View
does sha256 v (registers r password name) =
    enroll (generate_uuid r)
      (record {
        name = c_str name;
        password_hash = hash_password sha256 password (generate_salt r);
        salt = generate_salt r;
      })
      (v.account (generate_uuid r)) v
does sha256 v (renames id name) = record v {
  account = λ k. if same (c_str id) k then named (c_str name) (v.account k) else v.account k;
}
does sha256 v (adds a b) = record v {
  status = λ c d.
      if same_pair (c_str a) (c_str b) c d || same_pair (c_str b) (c_str a) c d
      then or_else (v.status c d) (some 0)
      else v.status c d;
}
does sha256 v (acks a b) = record v {
  status = λ c d.
      if same_pair (c_str a) (c_str b) c d || same_pair (c_str b) (c_str a) c d
      then set_to 1 (v.status c d)
      else v.status c d;
}
does sha256 v (removes a b) = record v {
  status = λ c d. if same_pair (c_str a) (c_str b) c d then none else v.status c d;
}
does sha256 v (keeps id content) = record v {
  kept_of = λ k. v.kept_of k ++ (if same (c_str id) k then c_str content ∷ [] else []);
}
does sha256 v (marks id) = record v { kept_of = λ k. if same (c_str id) k then [] else v.kept_of k }
does sha256 v (stores now from to type content) = record v {
  talk =
      v.talk
      ++ record {
        message_id = suc v.sequence;
        from_user_id = c_str from;
        to_user_id = c_str to;
        message_type = c_str type;
        content = c_str content;
        timestamp = now;
      }
        ∷ [];
  sequence = suc v.sequence;
}
does sha256 v (authenticates id password) = v
does sha256 v (names_user id) = v
does sha256 v (lists_names id) = v
does sha256 v (lists_ids id) = v
does sha256 v (gets_kept id) = v
does sha256 v (pulls now id days) = v

unfoldable pub does_all : (Bytes → Bytes) → View → List Call → View
does_all sha256 v [] = v
does_all sha256 v (c ∷ cs) = does_all sha256 (does sha256 v c) cs

-- Whose name a password gets.
abbrev pub checks : (Bytes → Bytes) → Bytes → Option Account → Option Bytes
checks sha256 password none = none
checks sha256 password (some a) =
    if same (hash_password sha256 password a.salt) a.password_hash then some a.name else none

abbrev pub name_of : Option Account → Option Bytes
name_of none = none
name_of (some a) = some a.name

-- The rows of an id: one, with a name, or none.
abbrev pub rows_of : Bytes → Option Account → List User
rows_of id none = []
rows_of id (some a) =
    record { user_id = id; username = some a.name; password_hash = a.password_hash; salt = a.salt }
    ∷ []

-- The rows of an ordered pair: one or none.
abbrev pub rows_of_pair : Bytes → Bytes → Option ℕ → List Friend
rows_of_pair a b none = []
rows_of_pair a b (some n) = record { user_id = a; friend_id = b; status = n } ∷ []

abbrev pub Tells : List Friend → (Bytes → Bytes → Option ℕ) → Type 0
Tells fs status = (a b : Bytes) → select (is_pair a b) fs ≡ rows_of_pair a b (status a b)

-- The friends by name: none if one of them has no account.
abbrev pub named_friends : (Bytes → Option Account) → List Bytes → Option (List (Bytes × Bytes))
named_friends account [] = some []
named_friends account (id ∷ ids) = do
  name ← name_of (account id)
  rest ← named_friends account ids
  some ((id, name) ∷ rest)

-- A friend whose request was accepted.
abbrev pub is_accepted : Option ℕ → Bool
is_accepted none = false
is_accepted (some n) = n == 1

-- The ids of the accepted friends, each once.
abbrev pub Lists : List Bytes → Bytes → View → Type 0
Lists ids id v =
    (x : Bytes) → select (same x) ids ≡ (if is_accepted (v.status id x) then x ∷ [] else [])

-- The tables show the view.
pub record Shows (t : Tables) (v : View) : Type 0 where
  pub accounts : (id : Bytes) → select (has_id id) t.users ≡ rows_of id (v.account id)
  pub pairs : Tells t.friends v.status
  pub kept_all : (id : Bytes) → kept id t ≡ v.kept_of id
  pub talk_all : t.messages ≡ v.talk
  pub sequence_all : t.last_message_id ≡ v.sequence

pub record Represents (db : Db) (v : View) : Type 0 where
  pub healthy : IsHealthy db
  pub shows : Shows db.tables v

-- A message that the user sent or received, and that is no older than so many days; none is if so
-- many days before now is a time before those that SQLite knows.
abbrev pub is_recent : ℕ → ℕ → Bytes → StoredMessage → Bool
is_recent now days id m =
    (same id m.from_user_id || same id m.to_user_id)
    && leb now (m.timestamp + days * 86400)
    && leb (days * 86400) (now + 210866760000)

-- The rows that a pull reads.
abbrev pub recent : ℕ → ℕ → Bytes → View → List StoredMessage
recent now days id v = select (is_recent now days (c_str id)) v.talk

abbrev pub IsLegible : ℕ → ℕ → Bytes → View → Type 0
IsLegible now days id v =
    (m : StoredMessage) → Mem m (recent now days id v) → is_readable now m ≡ true

-- The draws of a registration are in their bounds, and a pull can read its rows.
abbrev pub IsSteady : View → Call → Type 0
IsSteady v (registers r password name) = InBounds r
IsSteady v (pulls now id days) = IsLegible now days id v
IsSteady v (renames id name) = Unit {0}
IsSteady v (adds a b) = Unit {0}
IsSteady v (acks a b) = Unit {0}
IsSteady v (removes a b) = Unit {0}
IsSteady v (keeps id content) = Unit {0}
IsSteady v (marks id) = Unit {0}
IsSteady v (stores now from to type content) = Unit {0}
IsSteady v (authenticates id password) = Unit {0}
IsSteady v (names_user id) = Unit {0}
IsSteady v (lists_names id) = Unit {0}
IsSteady v (lists_ids id) = Unit {0}
IsSteady v (gets_kept id) = Unit {0}

-- Each call of a history is steady where it is made.
abbrev pub AreSteady : (Bytes → Bytes) → View → List Call → Type 0
AreSteady sha256 v [] = Unit {0}
AreSteady sha256 v (c ∷ cs) = IsSteady v c × AreSteady sha256 (does sha256 v c) cs
