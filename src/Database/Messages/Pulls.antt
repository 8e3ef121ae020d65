-- ===== src/Database/Messages/Pulls.antt =====
-- What a pull returns, in whatever order the engine reads the rows.
use mathlib.Core.List
use mathlib.Core.List.{
  Perm, Mem, mem-cons_of_mem, mem-cons_self, eq-or-mem_of_mem-cons, not-mem-nil,
}
use mathlib.Core.List.Perm
use mathlib.Core.Logic.Or
use tiny_im.Prelude.{
  ℕ, suc, ◌+◌, ◌≤◌, ◌<◌, ◌≡◌, refl, sym, ap, Bool, true, List, [], ◌∷◌, ◌++◌, Option, none, some,
  arith, Bytes, c_str, select, select-append, inl, inr, ◌⊎◌, Option-cases,
}
use tiny_im.Prelude.Int.{ℤ, pos, int_max, IsInt}
use tiny_im.Decimal.{to_string}
use tiny_im.Decimal.RoundTrip.{c_str-to_string}
use tiny_im.Message.{Message, new}
use tiny_im.Message.Types.{text}
use tiny_im.Database.Schema.{StoredMessage, select_recent}
use tiny_im.Database.Engine.{Engine, Works, ReadsAll}
use tiny_im.Database.Pool.{Db, ok}
use tiny_im.Database.Pool.Frame.{IsHealthy, rotate, left, query-healthy, IsHealthy-rotate}
use tiny_im.Database.Messages.{
  append_message, store_message, concerns, read_message, read_messages, get_recent_messages,
}
use tiny_im.Database.Messages.History.{
  stored_row, read_message-stored_row, read_messages-append, text_of, append_message-messages,
  concerns-stored_row, store_message-healthy,
}

abbrev pub is_read : Option Message → Bool
is_read none = Bool.false
is_read (some m) = true

-- A row of the conversation that `getRecentMessages` can read.
abbrev pub is_readable : ℕ → StoredMessage → Bool
is_readable now m = is_read (read_message now m)

pub read_messages-legible :
    (now : ℕ) (ms : List StoredMessage)
    → ((m : StoredMessage) → Mem m ms → is_readable now m ≡ true)
    → (xs : List Message) × (read_messages now ms ≡ some xs)
unfolding read_messages
read_messages-legible now [] h = ([], refl)
read_messages-legible now (m ∷ ms) h = elim (Option-cases (read_message now m)) [
  | inl n ↦ absurd (ground (arith, n, h m mem-cons_self))
  | inr (x, p) ↦
      let (xs, q) = read_messages-legible now ms (λ k i. h k (mem-cons_of_mem m i)) in
      (x ∷ xs, rw (p, q) refl)
]

-- The messages that were read are those of the rows.
read_messages-filter_map :
    (now : ℕ) (ms : List StoredMessage) (xs : List Message)
    → read_messages now ms ≡ some xs
    → List.filter_map (read_message now) ms ≡ xs
unfolding read_messages List.filter_map
read_messages-filter_map now [] xs h = ground arith
read_messages-filter_map now (m ∷ ms) xs h = elim (Option-cases (read_message now m)) [
  | inl n ↦ absurd (ground (arith, n))
  | inr (x, p) ↦ elim (Option-cases (read_messages now ms)) [
    | inl n ↦ absurd (ground (arith, n, p))
    | inr (ys, q) ↦
        let ih = read_messages-filter_map now ms ys q in
        let e : x ∷ ys ≡ xs = ground (arith, p, q) in rw (p, ih) e
  ]
]

is_readable-read :
    (now : ℕ) (ms : List StoredMessage) (xs : List Message)
    → read_messages now ms ≡ some xs
    → (m : StoredMessage) → Mem m ms
    → is_readable now m ≡ true
unfolding read_messages
is_readable-read now [] xs h m i = absurd (not-mem-nil i)
is_readable-read now (k ∷ ms) xs h m i = elim (Option-cases (read_message now k)) [
  | inl n ↦ absurd (ground (arith, n))
  | inr (x, p) ↦ elim (Option-cases (read_messages now ms)) [
    | inl n ↦ absurd (ground (arith, n, p))
    | inr (ys, q) ↦
        Or.elim (hlevel) (eq-or-mem_of_mem-cons i) (λ e. rw (e, p) refl)
          (λ j. is_readable-read now ms ys q m j)
  ]
]

-- Rows in another order are read as the same messages in another order.
pub read_messages-perm :
    (now : ℕ) (rows ms : List StoredMessage) (xs : List Message)
    → Perm rows ms
    → read_messages now ms ≡ some xs
    → (ys : List Message) × (read_messages now rows ≡ some ys) × Perm ys xs
read_messages-perm now rows ms xs p h =
    let (ys, q) =
      read_messages-legible now rows
        (λ m i. is_readable-read now ms xs h m ((Perm.mem_iff p).0 i)) in
    (
      ys,
      q,
      rw (sym (read_messages-filter_map now rows ys q), sym (read_messages-filter_map now ms xs h))
          (Perm.filter_map (read_message now) p),
    )

-- A message that was stored between two ints is among those that a pull of its sender or its
-- receiver returns within a day, beside what the rows of the day said before, in an order that the
-- engine chooses; it carries the two ids, the type TEXT, the id of its row and the content as a C
-- string, but the time of the pull. The engine works and reads all rows, the pool is healthy, the
-- last row id is below the largest int and the rows of the day can be read.
pub get_recent_messages-store_message :
    {e : Engine} (w : Works e) (reads : ReadsAll e) (now later : ℕ) (from to reader : ℤ)
    (content : Bytes) (db : Db) (old : List Message)
    → IsHealthy db
    → IsInt from
    → IsInt to
    → (reader ≡ from) ⊎ (reader ≡ to)
    → later ≤ now + 86400
    → db.tables.last_message_id < int_max
    → read_messages later (select (concerns later 1 (to_string reader)) db.tables.messages)
      ≡ some old
    → (ms : List Message) × ((get_recent_messages e later
          (to_string reader)
          1
          (store_message e now (to_string from) (to_string to) text_of content db).0).1
        ≡ ok ms)
      × Perm ms (
          old
          ++ new (pos later) from to text (pos (suc db.tables.last_message_id)) (c_str content)
            ∷ [])
unfolding get_recent_messages
get_recent_messages-store_message {e} w reads now later from to reader content db old h f g who soon
      small read =
    let t = append_message now (to_string from) (to_string to) text_of (c_str content) db.tables in
    let row = stored_row (suc db.tables.last_message_id) now from to content in
    let rows = select (concerns later 1 (to_string reader)) db.tables.messages in
    let more : select (concerns later 1 (to_string reader)) t.messages ≡ rows ++ row ∷ [] =
      rw
        (
          append_message-messages now from to content db.tables,
          select-append (concerns later 1 (to_string reader)) db.tables.messages (row ∷ []),
          concerns-stored_row (suc db.tables.last_message_id) now later from to reader content who
              soon,
        )
        refl in
    let all = read_messages-append later rows row old _ read (
      read_message-stored_row (suc db.tables.last_message_id) now later from to content f g
        small) in
    let (ms, q, perm) =
      read_messages-perm later (e.scan_messages (rows ++ row ∷ [])) (rows ++ row ∷ []) _
        (reads.messages_all (rows ++ row ∷ [])) all in
    (
      ms,
      rw (store_message-healthy w now from to content db h) (
          ap (λ r. r.1)
            (query-healthy e select_recent [] _ w (left t (rotate db.pool)) t ms
              (IsHealthy-rotate t db h) (rw (c_str-to_string reader, more, q) refl))),
      perm,
    )
