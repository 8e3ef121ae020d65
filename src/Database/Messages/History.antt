-- ===== src/Database/Messages/History.antt =====
-- The stored conversation: what a pull returns after a message was stored, and the ids of the rows.
use tiny_im.Prelude.{
  ℕ, suc, ◌+◌, ◌≤◌, ◌<◌, ◌≡◌, refl, true, List, [], ◌∷◌, ◌++◌, some, arith, Bytes, c_str, same_refl,
  inl, inr, ◌⊎◌, Bool-cases, Option-cases,
}
use tiny_im.Prelude.Int.{ℤ, pos, int_max, IsInt}
use tiny_im.Decimal.{to_string}
use tiny_im.Decimal.RoundTrip.{stoi-to_string, c_str-to_string}
use tiny_im.Message.{Message, new}
use tiny_im.Message.Types.{
  text, message_type_to_string, string_to_message_type-message_type_to_string,
}
use tiny_im.Database.Schema.{Tables, StoredMessage, insert_message}
use tiny_im.Database.Engine.{Engine, Works}
use tiny_im.Database.Pool.{Db, ok}
use tiny_im.Database.Pool.Frame.{IsHealthy, rotate, left, query-healthy, query-tables}
use tiny_im.Database.Messages.{append_message, store_message, concerns, read_message, read_messages}

-- The text that the handler stores for a message between two users, in the row that gets this id.
abbrev pub stored_row : ℕ → ℕ → ℤ → ℤ → Bytes → StoredMessage
stored_row id now from to content = record {
  message_id = id;
  from_user_id = to_string from;
  to_user_id = to_string to;
  message_type = message_type_to_string text;
  content = c_str content;
  timestamp = now;
}

pub read_message-stored_row :
    (id now later : ℕ) (from to : ℤ) (content : Bytes)
    → IsInt from
    → IsInt to
    → id ≤ int_max
    → read_message later (stored_row id now from to content)
      ≡ some (new (pos later) from to text (pos id) (c_str content))
unfolding read_message
read_message-stored_row id now later from to content f t i =
    rw
      (
        stoi-to_string from f,
        stoi-to_string to t,
        string_to_message_type-message_type_to_string text,
        stoi-to_string (pos id) i,
      )
      refl

pub read_messages-append :
    (now : ℕ) (ms : List StoredMessage) (m : StoredMessage) (old : List Message) (x : Message)
    → read_messages now ms ≡ some old
    → read_message now m ≡ some x
    → read_messages now (ms ++ m ∷ []) ≡ some (old ++ x ∷ [])
unfolding read_messages
read_messages-append now [] m old x h k = rw k (ground arith)
read_messages-append now (y ∷ ms) m old x h k = elim (Option-cases (read_message now y)) [
  | inl n ↦ absurd (ground (arith, n))
  | inr (a, p) ↦ elim (Option-cases (read_messages now ms)) [
    | inl n ↦ absurd (ground (arith, n, p))
    | inr (xs, q) ↦
        let ih = read_messages-append now ms m xs x q k in
        let e : old ≡ a ∷ xs = ground (arith, p, q) in rw (p, ih, e) refl
  ]
]

abbrev pub text_of : Bytes
text_of = message_type_to_string text

c_str-text_of : c_str text_of ≡ text_of
unfolding c_str message_type_to_string
c_str-text_of = refl

pub append_message-messages :
    (now : ℕ) (from to : ℤ) (content : Bytes) (t : Tables)
    → (append_message now (to_string from) (to_string to) text_of (c_str content) t).messages
      ≡ t.messages ++ stored_row (suc t.last_message_id) now from to content ∷ []
unfolding append_message
append_message-messages now from to content t = refl

pub concerns-stored_row :
    (id now later : ℕ) (from to reader : ℤ) (content : Bytes)
    → (reader ≡ from) ⊎ (reader ≡ to)
    → later ≤ now + 86400
    → concerns later 1 (to_string reader) (stored_row id now from to content) ≡ true
concerns-stored_row id now later from to reader content (inl e) soon =
    ground (arith, same_refl (to_string from), e)
concerns-stored_row id now later from to reader content (inr e) soon =
    ground (arith, same_refl (to_string to), e)

module _ {e : Engine} (w : Works e) where
  pub store_message-healthy :
      (now : ℕ) (from to : ℤ) (content : Bytes) (db : Db)
      → IsHealthy db
      → store_message e now (to_string from) (to_string to) text_of content db ≡ (
        left
            (append_message now (to_string from) (to_string to) text_of (c_str content) db.tables)
            (rotate db.pool),
        ok true,
      )
  unfolding store_message
  store_message-healthy now from to content db h = query-healthy e _ _ _ w db _ true h (
      rw (
        w.writes_all db.tables insert_message,
        c_str-to_string from,
        c_str-to_string to,
        c_str-text_of,
      ))

-- Row ids rise along the table, above `lo` and up to `hi`.
abbrev pub Ascends : ℕ → List StoredMessage → ℕ → Type 0
Ascends lo [] hi = lo ≤ hi
Ascends lo (m ∷ ms) hi = (lo < m.message_id) × Ascends m.message_id ms hi

Ascends-append :
    (lo hi : ℕ) (ms : List StoredMessage) (m : StoredMessage)
    → Ascends lo ms hi
    → hi < m.message_id
    → Ascends lo (ms ++ m ∷ []) m.message_id
Ascends-append lo hi [] m h k = omega arith
Ascends-append lo hi (x ∷ ms) m h k = (h.0, Ascends-append x.message_id hi ms m h.1 k)

append_message-Ascends :
    (now : ℕ) (from to type content : Bytes) (t : Tables)
    → Ascends 0 t.messages t.last_message_id
    → let t' = append_message now from to type content t in Ascends 0 t'.messages t'.last_message_id
unfolding append_message
append_message-Ascends now from to type content t h =
    Ascends-append 0 t.last_message_id t.messages _ h (omega arith)

-- Storing a message keeps the row ids strictly increasing and below the sequence, if they were so
-- before, however the call ends.
pub store_message-Ascends :
    (e : Engine) (now : ℕ) (from to type content : Bytes) (db : Db)
    → Ascends 0 db.tables.messages db.tables.last_message_id
    → let t = (store_message e now from to type content db).0.tables in
      Ascends 0 t.messages t.last_message_id
unfolding store_message
store_message-Ascends e now from to type content db h =
    query-tables e _ _ _ (λ t. Ascends 0 t.messages t.last_message_id) db h
      (elim (Bool-cases (e.writes db.tables insert_message)) [
        | inl y ↦ rw y (
            append_message-Ascends now (c_str from) (c_str to) (c_str type) (c_str content)
              db.tables h)
        | inr n ↦ rw n h
      ])
