-- ===== src/Examples/Witnesses/OfService.antt =====
-- The service, from a server on which nobody is logged in.
use mathlib.Core.List.{reverse_perm, not-mem-nil}
use tiny_im.Prelude.{◌≡◌, refl, List, [], ◌∷◌, ◌++◌, ◌⊎◌, some, codes, c_str, same}
use tiny_im.Message.Types.{MessageType, text, friend_request_response}
use tiny_im.Database.Pool.{Db, ok}
use tiny_im.Database.Calls.{registers, after_all}
use tiny_im.Database.Credentials.{generate_uuid, generate_salt, hash_password}
use tiny_im.Database.Friends.Rows.{status_of}
use tiny_im.Database.Schema.{StoredMessage}
use tiny_im.Database.Users.{authenticate_user, get_user_name_by_id}
use tiny_im.Database.Contract.{does_all, does}
use tiny_im.Database.Contract.Refinement.{after_all-Represents, after_all-answers}
use tiny_im.Prelude.Int.{same_int}
use tiny_im.Decimal.{to_string}
use tiny_im.Database.Friends
use tiny_im.Database.Pool.{query}
use tiny_im.Handler.State
use tiny_im.Handler.Contacts.{add_friend, ack_add_friend}
use tiny_im.Handler.Dispatch.{handle_incoming_message}
use tiny_im.Handler.State.{State}
use tiny_im.Handler.Dispatch.Keeps.{Event, arrives, disconnects, handle_all}
use tiny_im.Service.{Service}
use tiny_im.Service.Shown.{Shown, IsFit}
use tiny_im.Service.Refinement.{AreServed}
use tiny_im.Service.Memory.{handle_all-authenticates}
use tiny_im.Service.Friendship.{Accepted, handle_all-Accepted}
use tiny_im.Examples.Codec.{codec}
use tiny_im.Examples.Blank.{no_view, new_db, new_db-Represents}
use tiny_im.Examples.World.{
  engine, engine-Works, engine-ReadsAll, checksum, random, random-InBounds, env, message,
}

env-IsFit : IsFit env
env-IsFit = record {
  works = engine-Works;
  reads = engine-ReadsAll;
  bounds = random-InBounds;
  visits = λ m. reverse_perm m;
}

-- User 1 asks user 2 to be friends, writes to user 2, and user 2 accepts and leaves.
abbrev history : List Event
history =
    arrives env 7 (message 1 2 MessageType.add_friend [])
    ∷ arrives env 7 (message 1 2 text (codes "hi"))
    ∷ arrives env 8 (message 2 1 friend_request_response (codes "accept"))
    ∷ disconnects 8
    ∷ []

-- One account.
abbrev enrolled : Db
enrolled = after_all engine checksum new_db (registers random (codes "pw") (codes "cat") ∷ [])

abbrev start : State
start = record { sessions = []; db = enrolled; effects = [] }

abbrev service : Service
service = record {
  sessions = [];
  view = does_all checksum no_view (registers random (codes "pw") (codes "cat") ∷ []);
}

start-Shown : Shown start service
start-Shown = record {
  same_sessions = refl;
  represents =
      after_all-Represents engine-Works engine-ReadsAll checksum new_db no_view
        (registers random (codes "pw") (codes "cat") ∷ []) (random-InBounds, tt) new_db-Represents;
}

served : AreServed codec history start
served = ((env-IsFit, tt), ((env-IsFit, tt), ((env-IsFit, tt), (tt, tt))))

lets_in :
    (authenticate_user engine checksum (generate_uuid random) (codes "pw") enrolled).1
    ≡ ok (some (codes "cat"))
unfolding does_all does generate_uuid same c_str hash_password checksum generate_salt
lets_in =
    (after_all-answers engine-Works engine-ReadsAll checksum new_db no_view
      (registers random (codes "pw") (codes "cat") ∷ []) (generate_uuid random) (codes "pw") 6 1
      (random-InBounds, tt) new_db-Represents (λ m i. absurd (not-mem-nil i))).0

handle_all-authenticates_example :
    ((authenticate_user engine checksum
        (generate_uuid random)
        (codes "pw")
        (handle_all codec start history).db).1
      ≡ ok (some (codes "cat")))
    × (more : List StoredMessage) × ((handle_all codec start history).db.tables.messages
        ≡ start.db.tables.messages ++ more)
handle_all-authenticates_example =
    handle_all-authenticates codec history start service engine checksum (generate_uuid random)
      (codes "pw") (codes "cat") engine-Works engine-ReadsAll served start-Shown lets_in

abbrev blank : State
blank = record { sessions = []; db = new_db; effects = [] }

abbrev blank_service : Service
blank_service = record { sessions = []; view = no_view }

blank-Shown : Shown blank blank_service
blank-Shown = record { same_sessions = refl; represents = new_db-Represents }

abbrev befriending : List Event
befriending =
    arrives env 7 (message 1 2 MessageType.add_friend [])
    ∷ arrives env 8 (message 2 1 friend_request_response (codes "accept"))
    ∷ []

friends_then :
    status_of (codes "1") (codes "2") (handle_all codec blank befriending).db.tables.friends
    ≡ some 1
unfolding handle_all status_of handle_incoming_message ack_add_friend same State.◌>>=◌ State.ask
    Friends.ack_add_friend query add_friend same_int Friends.add_friend get_user_name_by_id
    State.pure c_str to_string
friends_then = refl

handle_all-Accepted_example :
    (status_of (codes "1") (codes "2") blank.db.tables.friends ≡ some 1)
    ⊎ Accepted befriending (codes "1") (codes "2")
handle_all-Accepted_example =
    handle_all-Accepted codec befriending blank blank_service (codes "1") (codes "2")
      ((env-IsFit, tt), ((env-IsFit, tt), tt)) blank-Shown friends_then
