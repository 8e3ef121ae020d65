-- ===== src/Examples/Witnesses/OfDatabase.antt =====
-- The database's theorems in the small world.
use mathlib.Core.Bool.{false≢true}
use mathlib.Core.Logic.{◌≢◌}
use tiny_im.Prelude.{
  ◌≡◌, refl, [], ◌∷◌, ◌++◌, some, codes, arith, c_str, same, same_iff, select, length, inr,
}
use tiny_im.Prelude.Int.{pos}
use tiny_im.Decimal.{to_string}
use tiny_im.Decimal.Canonical.{IsId}
use tiny_im.Message.{Message, new}
use tiny_im.Message.Types.{text}
use tiny_im.Database.Schema.{Tables, no_rows}
use tiny_im.Database.Pool.{Db, ok}
use tiny_im.Database.Pool.Frame.{left}
use tiny_im.Database.Credentials.{generate_uuid}
use tiny_im.Database.Credentials.Shape.{generate_uuid-IsId}
use tiny_im.Database.Friends.{get_friend_pair, get_friend_list, get_friend_list_username, accepted}
use tiny_im.Database.Friends.Rows.{status_of}
use tiny_im.Database.Friends.Symmetry.{IsPaired, asks, accepts, befriend_all, befriend_all-IsPaired}
use tiny_im.Database.Friends.Listing.{named_pairs, name_of}
use tiny_im.Database.Messages.{read_messages, concerns, store_message, get_recent_messages}
use tiny_im.Database.Messages.History.{text_of}
use tiny_im.Database.Messages.Pulls.{get_recent_messages-store_message}
use tiny_im.Database.Engine.{Engine}
use tiny_im.Database.Pool.{query}
use mathlib.Core.List.{Perm, List}
use tiny_im.Examples.World.{
  engine, engine-Works, engine-ReadsAll, row, user_111, user_222, random, random-InBounds, tables,
  connections, db, db-IsHealthy,
}

generate_uuid-IsId_example : IsId (generate_uuid random) × (length (generate_uuid random) ≡ 9)
generate_uuid-IsId_example = generate_uuid-IsId random random-InBounds

empty_db : Db
empty_db = record { tables = no_rows; pool = connections }

empty_db-IsPaired : IsPaired empty_db
unfolding empty_db
empty_db-IsPaired = record {
  healthy = record { some_left = omega arith; all_open = (refl, (refl, tt)) };
  symmetric = λ c d. unfold status_of in refl;
}

befriend_all-IsPaired_example : IsPaired (
    befriend_all engine empty_db
      (asks (codes "1") (codes "2") ∷ accepts (codes "1") (codes "2") ∷ []))
befriend_all-IsPaired_example =
    befriend_all-IsPaired engine-Works empty_db
      (asks (codes "1") (codes "2") ∷ accepts (codes "1") (codes "2") ∷ []) empty_db-IsPaired

ids_differ : c_str (codes "111") ≢ c_str (codes "222")
unfolding c_str same
ids_differ e = false≢true ((same_iff (c_str (codes "111")) (c_str (codes "222"))).1 e)

back_row : status_of (c_str (codes "222")) (c_str (codes "111")) db.tables.friends ≡ some 1
unfolding status_of c_str same
back_row = refl

-- So user 111 is listed one friend, with the name of user 222.
one_friend :
    named_pairs (select (accepted (c_str (codes "111"))) tables.friends) tables.users
    ≡ some ((codes "222", codes "bob") ∷ [])
unfolding named_pairs c_str same name_of
one_friend = refl

-- An engine that reads the two queries in different orders: the names are exchanged.
abbrev exchanging : Engine
exchanging = record engine { scan_friends = λ l. l }

abbrev three : Tables
three = record tables {
  users =
      user_111
      ∷ user_222
      ∷ record user_222 { user_id = codes "333"; username = some (codes "eve") }
      ∷ [];
  friends = row (codes "111") (codes "222") 1 ∷ row (codes "111") (codes "333") 1 ∷ [];
}

exchanged :
    (get_friend_pair exchanging (codes "111") (left three connections)).1
    ≡ ok ((codes "222", codes "eve") ∷ (codes "333", codes "bob") ∷ [])
unfolding get_friend_pair get_friend_list get_friend_list_username query c_str same
exchanged = refl

nothing_read :
    read_messages 2000 (select (concerns 2000 1 (to_string (pos 222))) db.tables.messages) ≡ some []
unfolding read_messages
nothing_read = refl

get_recent_messages-store_message_example :
    (ms : List Message) × ((get_recent_messages engine 2000
        (to_string (pos 222))
        1
        (store_message engine 1000
          (to_string (pos 111))
          (to_string (pos 222))
          text_of
          (codes "hi")
          db).0).1
      ≡ ok ms)
    × Perm ms ([] ++ new (pos 2000) (pos 111) (pos 222) text (pos 1) (c_str (codes "hi")) ∷ [])
get_recent_messages-store_message_example =
    get_recent_messages-store_message engine-Works engine-ReadsAll 1000 2000 (pos 111) (pos 222)
      (pos 222) (codes "hi") db [] db-IsHealthy (omega arith) (omega arith) (inr refl) (omega arith)
      (omega arith) nothing_read
