-- ===== src/Examples/Witnesses/OfContract.antt =====
-- The contract of the database, from empty tables and two open connections.
use tiny_im.Prelude.{◌≡◌, refl, sym, subst, true, List, [], ◌∷◌, some, codes, c_str, same}
use tiny_im.Database.Schema.{StoredMessage}
use tiny_im.Database.Messages.{read_message}
use tiny_im.Decimal.{stoi, to_string}
use tiny_im.Message.Types.{string_to_message_type}
use mathlib.Core.List.{mem-singleton, not-mem-nil}
use tiny_im.Database.Pool.{ok}
use tiny_im.Database.Credentials.{generate_uuid, generate_salt, hash_password}
use tiny_im.Database.Users.{authenticate_user}
use tiny_im.Database.Calls.{
  Call, registers, adds, acks, pulls, removes, keeps, lists_ids, stores, after_all,
}
use tiny_im.Database.Messages.Pulls.{is_readable}
use tiny_im.Database.Contract.{AreSteady, does, does_all, Represents}
use tiny_im.Database.Contract.Refinement.{after_all-Represents, after_all-answers}
use tiny_im.Examples.Blank.{no_view, new_db, new_db-Represents}
use tiny_im.Examples.World.{
  engine, engine-Works, engine-ReadsAll, checksum, random, random-InBounds,
}

abbrev history : List Call
history =
    registers random (codes "pw") (codes "cat")
    ∷ adds (codes "1") (codes "2")
    ∷ acks (codes "2") (codes "1")
    ∷ removes (codes "2") (codes "1")
    ∷ keeps (codes "1") (codes "hi")
    ∷ stores 5 (codes "1") (codes "2") (codes "TEXT") (codes "hi")
    ∷ pulls 6 (codes "1") 1
    ∷ lists_ids (codes "1")
    ∷ []

stored_row : StoredMessage
stored_row = record {
  message_id = 1;
  from_user_id = codes "1";
  to_user_id = codes "2";
  message_type = codes "TEXT";
  content = codes "hi";
  timestamp = 5;
}

stored_row-is_readable : is_readable 6 stored_row ≡ true
unfolding stored_row read_message stoi string_to_message_type same to_string
stored_row-is_readable = refl

rows_set : IsSet StoredMessage
rows_set = hlevel

steady : AreSteady checksum no_view history
unfolding does stored_row same c_str
steady = (
  random-InBounds,
  (
    tt,
    (
      tt,
      (
        tt,
        (
          tt,
          (
            tt,
            (
              λ m i.
                  subst (λ x. is_readable 6 x ≡ true) (sym ((mem-singleton rows_set).0 i))
                    stored_row-is_readable,
              (tt, tt),
            ),
          ),
        ),
      ),
    ),
  ),
)

after_all-Represents_example :
    Represents (after_all engine checksum new_db history) (does_all checksum no_view history)
after_all-Represents_example =
    after_all-Represents engine-Works engine-ReadsAll checksum new_db no_view history steady
      new_db-Represents

after_all-answers_example :
    (authenticate_user engine checksum
      (generate_uuid random)
      (codes "pw")
      (after_all engine checksum new_db history)).1
    ≡ ok (some (codes "cat"))
unfolding does_all does generate_uuid same c_str hash_password checksum generate_salt
after_all-answers_example =
    (after_all-answers engine-Works engine-ReadsAll checksum new_db no_view history
      (generate_uuid random) (codes "pw") 6 1 steady new_db-Represents
      (λ m i. absurd (not-mem-nil i))).0
