-- ===== src/Service.antt =====
-- What the server does for its users, without rows, pools, statements and exceptions: for each event
-- of src/BusinessHandler.cpp, what is sent and what becomes of the accounts, the friendships, the
-- conversation and the session map.
pub mod Shown
pub mod Accounts
pub mod Leaving
pub mod Contacts
pub mod Chat
pub mod Refinement
pub mod Memory
pub mod Friendship
use mathlib.Core.List.{Perm}
use tiny_im.Prelude.{
  ◌≡◌, Bool, true, false, not, List, [], ◌∷◌, ◌++◌, map, Option, none, some, if◌then◌else◌, Bytes,
  codes, same, select, ◌>>=◌,
}
use tiny_im.Prelude.Int.{ℤ, pos, negsuc, next_int, same_int}
use tiny_im.Decimal.{to_string}
use tiny_im.Message.{Message, new}
use tiny_im.Message.Types.{
  MessageType, sign_up, sign_up_response, login, login_response, logout, text, add_friend,
  friend_request, friend_request_response, friend_list, private_chat, group_chat, pull_message,
}
use tiny_im.Message.Json.{JsonLib}
use tiny_im.Database.Schema.{StoredMessage}
use tiny_im.Database.Credentials.{generate_uuid}
use tiny_im.Database.Messages.{read_messages}
use tiny_im.Database.Messages.History.{text_of}
use tiny_im.Database.Calls.{registers, adds, acks, removes, stores}
use tiny_im.Database.Contract.{
  is_accepted, named_friends, Lists, Account, View, does, checks, name_of, recent,
}
use tiny_im.Database.Friends.Listing.{PairsUp}
use tiny_im.Handler.State.{SessionId, Effect, sends, closes, Env, find, erase, insert}
use tiny_im.Handler.Sessions.{SessionMap}
use tiny_im.Handler.Account.{belongs}
use tiny_im.Handler.Account.Login.{response}
use tiny_im.Handler.Contacts.{friend_infos}
use tiny_im.Handler.Contacts.Befriending.{notice}
use tiny_im.Handler.Chat.{forwarded}
use tiny_im.Handler.Chat.Delivery.{delivery}
use tiny_im.Handler.Dispatch.Keeps.{Event, arrives, disconnects}

pub record Service : Type 0 where
  pub sessions : SessionMap
  pub view : View

-- What is sent, and the service afterwards.
abbrev pub Outcome : Type 0
Outcome = List Effect × Service

abbrev pub silent : Service → Outcome
silent p = ([], p)

abbrev pub sender : Message → Bytes
sender msg = to_string msg.from_user_id

abbrev pub receiver : Message → Bytes
receiver msg = to_string msg.to_user_id

module _ (lib : JsonLib) (env : Env) (msg : Message) (session : SessionId) where
  -- The two texts of a registration.
  abbrev pub wanted : Option (Bytes × Bytes)
  wanted = do
    j ← lib.parse msg.content
    password ← lib.get_text j (codes "password")
    username ← lib.get_text j (codes "username")
    some (password, username)

  abbrev pub welcome : Option Account → List Effect
  welcome (some taken) = []
  welcome none =
      sends session (
        new (pos env.now) (negsuc 0) (negsuc 0) sign_up_response (next_int env.garbage)
          (generate_uuid env.random))
      ∷ []

  -- A malformed request changes nothing.
  abbrev pub signs_up : Service → Option (Bytes × Bytes) → Outcome
  signs_up p none = silent p
  signs_up p (some (password, username)) = (
    welcome (p.view.account (generate_uuid env.random)),
    record p { view = does env.sha256 p.view (registers env.random password username) },
  )

  -- An answer that cannot be dumped is not sent.
  abbrev pub reply : Option Bytes → List Effect
  reply none = []
  reply (some content) = sends session (response lib env msg.from_user_id content) ∷ []

  abbrev pub refusal : Bytes → Option Bytes
  refusal reason = lib.dump (
      lib.object (
        (codes "status", lib.of_text (codes "fail"))
        ∷ (codes "username", lib.of_text (codes " "))
        ∷ (codes "reason", lib.of_text reason)
        ∷ []))

  abbrev pub success : Bytes → Option Bytes
  success name = lib.dump (
      lib.object (
        (codes "status", lib.of_text (codes "success"))
        ∷ (codes "username", lib.of_text name)
        ∷ []))

  -- What the password gets, and the session that the user has already.
  abbrev pub logs_in : Service → Option Bytes → Option SessionId → Outcome
  logs_in p none there = (reply (refusal (codes "authenticate fail")), p)
  logs_in p (some name) (some other) = (reply (refusal (codes "repeated login")), p)
  logs_in p (some name) none =
      (reply (success name), record p { sessions = insert msg.from_user_id session p.sessions })

  -- The message is stored, and forwarded to the receiver's session.
  abbrev pub talks : Service → Outcome
  talks p = (
    delivery (find msg.to_user_id p.sessions) (forwarded env msg),
    record p {
      view =
          does env.sha256 p.view (stores env.now (sender msg) (receiver msg) text_of msg.content);
    },
  )

  abbrev pub befriends : Service → Bool → Outcome
  befriends p true = silent p
  befriends p false = (
    notice env msg (name_of (p.view.account (sender msg))) (find msg.to_user_id p.sessions),
    record p { view = does env.sha256 p.view (adds (sender msg) (receiver msg)) },
  )

  abbrev pub answers_request : Service → Outcome
  answers_request p =
      if same msg.content (codes "reject")
      then silent (record p { view = does env.sha256 p.view (removes (receiver msg) (sender msg)) })
      else if same msg.content (codes "accept")
      then silent (record p { view = does env.sha256 p.view (acks (receiver msg) (sender msg)) })
      else silent p

  -- An id that is no int, or a list that cannot be dumped, leaves the request unanswered.
  abbrev pub listed : Option Bytes → List Effect
  listed none = []
  listed (some content) =
      sends session (
        new (pos env.now) msg.from_user_id msg.to_user_id friend_list (next_int msg.message_id)
          content)
      ∷ []

  abbrev pub listing : List (Bytes × Bytes) → Option Bytes
  listing pairs = do infos ← friend_infos lib env pairs; lib.dump (lib.array infos)

  -- The copies of a group message, one for each session but the sender's.
  abbrev pub copies : Service → List Effect
  copies p =
      map
        (λ (e : ℤ × SessionId).
          sends e.1 (
            new (pos env.now) msg.from_user_id msg.to_user_id group_chat msg.to_user_id
              msg.content))
        (select (λ e. not (belongs session e)) p.sessions)

  -- What a message of each type may lead to.
  abbrev pub Answers : MessageType → Service → Outcome → Type 0
  Answers sign_up p o = o ≡ signs_up p wanted
  Answers login p o =
      o
      ≡ logs_in p (checks env.sha256 msg.content (p.view.account (sender msg)))
          (find msg.from_user_id p.sessions)
  Answers logout p o =
      o ≡ (closes session ∷ [], record p { sessions = erase msg.from_user_id p.sessions })
  Answers text p o = o ≡ talks p
  Answers private_chat p o = o ≡ talks p
  Answers add_friend p o = o ≡ befriends p (same_int msg.from_user_id msg.to_user_id)
  Answers friend_request_response p o = o ≡ answers_request p
  Answers friend_list p o =
      (ids : List Bytes) × (pairs : List (Bytes × Bytes)) × Lists ids (sender msg) p.view
      × PairsUp (named_friends p.view.account ids) pairs
      × (o ≡ (listed (listing pairs), p))
  Answers group_chat p o = Perm o.0 (copies p) × (o.1 ≡ p)
  Answers pull_message p o =
      (rows : List StoredMessage) × (ms : List Message) × Perm rows
        (recent env.now 1 (sender msg) p.view)
      × (read_messages env.now rows ≡ some ms)
      × (o ≡ (map (sends session) ms, p))
  Answers _ p o = o ≡ silent p

abbrev pub Serves : JsonLib → Event → Service → Outcome → Type 0
Serves lib (arrives env session msg) p o = Answers lib env msg session msg.message_type p o
Serves lib (disconnects session) p o =
    o ≡ silent (record p { sessions = select (λ e. not (belongs session e)) p.sessions })

-- What a history of events may lead to, with all that is sent, oldest first.
pub data History (lib : JsonLib) : List Event → Service → Outcome → Type 0 where
  quiet : (p : Service) → History lib [] p ([], p)
  next :
      {e : Event} {es : List Event} {p q r : Service}
      → (xs ys : List Effect) → Serves lib e p (xs, q)
      → History lib es q (ys, r)
      → History lib (e ∷ es) p (xs ++ ys, r)
