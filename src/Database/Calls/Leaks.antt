-- ===== src/Database/Calls/Leaks.antt =====
-- Where connections go.
use tiny_im.Prelude.{
  ℕ, zero, suc, ◌+◌, ◌≤◌, ◌≡◌, refl, ap, ◌∙◌, false, List, [], ◌∷◌, arith, Bytes, All, length,
  length-append, inl, inr,
}
use tiny_im.Database.Schema.{Tables}
use tiny_im.Database.Engine.{Engine}
use tiny_im.Database.Pool.{Connection, Db, blocked}
use tiny_im.Database.Pool.Frame.{left, Kept, query-Kept, query-closed, query-blocked}
use tiny_im.Database.Users.{register_user, set_username, authenticate_user, get_user_name_by_id}
use tiny_im.Database.Users.Accounts.{authenticate_user-blocked}
use tiny_im.Database.Friends.{
  ack_add_friend, remove_friend, get_friend_list_username, get_friend_list,
}
use tiny_im.Database.Friends.Calls.{add_friend-Kept, add_friend-closed, add_friend-blocked}
use tiny_im.Database.Messages.{
  store_message, get_recent_messages, store_offline_message, get_offline_messages,
  mark_messages_as_read,
}
use tiny_im.Database.Calls.{Call, registers, adds, after, after_all}

-- A call puts the connection that it took at the back of the pool, or it loses this connection.
pub after-Kept :
    (e : Engine) (sha256 : Bytes → Bytes) (db : Db) (c : Call)
    → Kept db.pool (after e sha256 db c).pool
unfolding after register_user set_username authenticate_user get_user_name_by_id ack_add_friend
    remove_friend get_friend_list_username get_friend_list store_message get_recent_messages
    store_offline_message get_offline_messages mark_messages_as_read
after-Kept e sha256 db (adds a b) = add_friend-Kept e a b db
after-Kept e sha256 db (registers r password name) = query-Kept e _ _ _ db
after-Kept e sha256 db _ = query-Kept e _ _ _ db

Kept-length : (p q : List Connection) → Kept p q → (length q ≤ length p) × (length p ≤ length q + 1)
Kept-length [] q k = ground arith
Kept-length (c ∷ rest) q (inl h) = rw h (omega (arith, length-append rest (c ∷ [])))
Kept-length (c ∷ rest) q (inr h) = rw h (omega arith)

-- No history of calls adds a connection to the pool, and each call loses at most one.
pub after_all-length :
    (e : Engine) (sha256 : Bytes → Bytes) (db : Db) (cs : List Call)
    → (length (after_all e sha256 db cs).pool ≤ length db.pool)
      × (length db.pool ≤ length (after_all e sha256 db cs).pool + length cs)
unfolding after_all
after_all-length e sha256 db [] = omega arith
after_all-length e sha256 db (c ∷ cs) =
    let db' = after e sha256 db c in
    omega (
      arith,
      Kept-length db.pool db'.pool (after-Kept e sha256 db c),
      after_all-length e sha256 db' cs,
    )

abbrev pub AllClosed : List Connection → Type 0
AllClosed = All (λ c. c.opened ≡ false)

-- On a connection that could not be opened a call changes no row and loses the connection.
after-closed :
    (e : Engine) (sha256 : Bytes → Bytes) (t : Tables) (c : Connection) (rest : List Connection)
    (call : Call)
    → c.opened ≡ false
    → after e sha256 (left t (c ∷ rest)) call ≡ left t rest
unfolding after register_user set_username authenticate_user get_user_name_by_id ack_add_friend
    remove_friend get_friend_list_username get_friend_list store_message get_recent_messages
    store_offline_message get_offline_messages mark_messages_as_read
after-closed e sha256 t c rest (adds a b) h = ap (λ r. r.0) (add_friend-closed e a b t c rest h)
after-closed e sha256 t c rest (registers r password name) h =
    ap (λ r. r.0) (query-closed e _ _ _ t c rest h)
after-closed e sha256 t c rest _ h = ap (λ r. r.0) (query-closed e _ _ _ t c rest h)

-- With an empty pool a call waits for ever and changes nothing.
after-empty :
    (e : Engine) (sha256 : Bytes → Bytes) (t : Tables) (call : Call)
    → after e sha256 (left t []) call ≡ left t []
unfolding after register_user set_username authenticate_user get_user_name_by_id ack_add_friend
    remove_friend get_friend_list_username get_friend_list store_message get_recent_messages
    store_offline_message get_offline_messages mark_messages_as_read
after-empty e sha256 t (adds a b) = ap (λ r. r.0) (add_friend-blocked e a b (left t []) refl)
after-empty e sha256 t (registers r password name) =
    ap (λ r. r.0) (query-blocked e _ _ _ (left t []) refl)
after-empty e sha256 t _ = ap (λ r. r.0) (query-blocked e _ _ _ (left t []) refl)

-- What `n` calls leave of a pool when each of them loses its connection.
abbrev pub lose : ℕ → List Connection → List Connection
lose zero p = p
lose (suc n) [] = []
lose (suc n) (c ∷ rest) = lose n rest

pub lose-AllClosed : (n : ℕ) (p : List Connection) → AllClosed p → AllClosed (lose n p)
lose-AllClosed zero p h = h
lose-AllClosed (suc n) [] h = h
lose-AllClosed (suc n) (c ∷ rest) h = lose-AllClosed n rest h.1

pub lose-all : (n : ℕ) (p : List Connection) → length p ≤ n → lose n p ≡ []
lose-all zero [] h = refl
lose-all zero (c ∷ rest) h = absurd (omega arith)
lose-all (suc n) [] h = refl
lose-all (suc n) (c ∷ rest) h = lose-all n rest (omega arith)

pub lose-lose : (m n k : ℕ) (p : List Connection) → m + n ≡ k → lose n (lose m p) ≡ lose k p
lose-lose zero n k p h = ap (λ i. lose i p) (omega arith)
lose-lose (suc m) n zero p h = absurd (omega arith)
lose-lose (suc m) n (suc k) [] h = lose-all n [] (omega arith)
lose-lose (suc m) n (suc k) (c ∷ rest) h = lose-lose m n k rest (omega arith)

-- On connections that could not be opened no call changes a row, and each loses its connection.
pub after_all-closed :
    (e : Engine) (sha256 : Bytes → Bytes) (t : Tables) (p : List Connection) (cs : List Call)
    → AllClosed p
    → after_all e sha256 (left t p) cs ≡ left t (lose (length cs) p)
unfolding after_all
after_all-closed e sha256 t p [] h = refl
after_all-closed e sha256 t [] (c ∷ cs) h =
    ap (λ db. after_all e sha256 db cs) (after-empty e sha256 t c)
    ∙ after_all-closed e sha256 t [] cs h
    ∙ ap (left t) (lose-all (length cs) [] (omega arith))
after_all-closed e sha256 t (p ∷ ps) (c ∷ cs) h =
    ap (λ db. after_all e sha256 db cs) (after-closed e sha256 t p ps c h.0)
    ∙ after_all-closed e sha256 t ps cs h.1

-- If no connection of the pool could be opened, then after as many calls as it has connections no
-- row has changed, the pool is empty, and a login waits for ever.
after_all-drains :
    (e : Engine) (sha256 : Bytes → Bytes) (db : Db) (cs : List Call) (id password : Bytes)
    → AllClosed db.pool
    → length db.pool ≤ length cs
    → let spent = after_all e sha256 db cs in
      (spent.tables ≡ db.tables)
      × (spent.pool ≡ [])
      × (authenticate_user e sha256 id password spent ≡ (spent, blocked))
after_all-drains e sha256 db cs id password h k =
    rw (after_all-closed e sha256 db.tables db.pool cs h) (
      let empty = lose-all (length cs) db.pool k in
      (refl, empty, authenticate_user-blocked e sha256 id password _ empty))
