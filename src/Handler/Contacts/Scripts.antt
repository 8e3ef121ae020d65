-- ===== src/Handler/Contacts/Scripts.antt =====
-- The calls of the database under requests, their answers and friend lists.
use tiny_im.Prelude.{
  ◌≡◌, refl, Bool, true, false, Option, none, some, arith, Bytes, codes, same, Bool-cases, inl, inr,
}
use tiny_im.Prelude.Int.{ℤ}
use tiny_im.Decimal.{to_string}
use tiny_im.Message.{Message}
use tiny_im.Message.Json.{JsonLib}
use tiny_im.Database.Pool.{Db, Result}
use tiny_im.Database.Calls.{Call, adds, acks, removes, names_user, lists_names, lists_ids, after}
use tiny_im.Handler.State.{SessionId, Env, pure, ask, ◌>>=◌}
use tiny_im.Database.Friends.{get_friend_list, get_friend_pair}
use tiny_im.Database.Friends.Calls.{get_friend_pair-db}
use tiny_im.Handler.Contacts.{
  notify, notify_named, requested, request, add_friend, ack_add_friend, send_friend_list,
}
use tiny_im.Handler.Scripts.{
  Asks, one_call, weaken, then_calls, Asks-pure, Asks-ask, Asks-or_throw, Asks-weaken, Asks-emit,
  Asks-bind, Asks-last, Asks-guard, Asks-found,
}

module _ (env : Env) where
  notify-Asks :
      (a b : ℤ) (name : Bytes) (o : Option SessionId) → Asks env 0 0 (notify env a b name o)
  unfolding notify
  notify-Asks a b name none = Asks-pure tt
  notify-Asks a b name (some session) = Asks-emit _

  notify_named-Asks : (a b : ℤ) (o : Option Bytes) → Asks env 0 0 (notify_named env a b o)
  unfolding notify_named
  notify_named-Asks a b none = Asks-pure tt
  notify_named-Asks a b (some name) = Asks-found b _ (notify-Asks a b name)

  requested-Asks : (a b : ℤ) (done : Bool) → Asks env 0 1 (requested env a b done)
  unfolding requested after
  requested-Asks a b false = Asks-weaken _ (omega arith) (omega arith) (Asks-pure tt)
  requested-Asks a b true =
      Asks-weaken _ (omega arith) (omega arith)
        (Asks-last _ _ (Asks-ask _ (names_user (to_string a)) λ db. refl) (notify_named-Asks a b))

  request-Asks : (a b : ℤ) (self : Bool) → Asks env 0 2 (request env a b self)
  unfolding request after
  request-Asks a b true = Asks-weaken _ (omega arith) (omega arith) (Asks-pure tt)
  request-Asks a b false = Asks-weaken _ (omega arith) (omega arith) (
      Asks-bind _ _ (Asks-ask _ (adds (to_string a) (to_string b)) λ db. refl) (requested-Asks a b))

  -- A request to oneself makes no call, another one the request and the look-up of a name.
  pub add_friend-Asks : (msg : Message) → Asks env 0 2 (add_friend env msg)
  unfolding add_friend
  add_friend-Asks msg = request-Asks msg.from_user_id msg.to_user_id _

  one_answer :
      (q : Db → Db × Result Bool) (c : Call)
      → ((db : Db) → (q db).0 ≡ after env.engine env.sha256 db c)
      → Asks env 0 1 (ask q >>= λ done. pure tt)
  one_answer q c h =
      Asks-weaken _ (omega arith) (omega arith)
        (Asks-last _ _ (Asks-ask q c h) λ done. Asks-pure tt)

  pub ack_add_friend-Asks : (msg : Message) → Asks env 0 1 (ack_add_friend env msg)
  unfolding ack_add_friend after
  ack_add_friend-Asks msg = elim (Bool-cases (same msg.content (codes "reject"))) [
    | inl y ↦
        rw y (
          one_answer _ (removes (to_string msg.to_user_id) (to_string msg.from_user_id)) λ db. refl)
    | inr n ↦ rw n (elim (Bool-cases (same msg.content (codes "accept"))) [
      | inl y ↦
          rw y
            (one_answer _ (acks (to_string msg.to_user_id) (to_string msg.from_user_id)) λ db. refl)
      | inr m ↦ rw m (Asks-weaken _ (omega arith) (omega arith) (Asks-pure tt))
    ])
  ]

  -- The list of friends is two calls, or one that does not return.
  get_friend_pair-Asks : (id : Bytes) → Asks env 1 2 (ask (get_friend_pair env.engine id))
  unfolding ask after
  get_friend_pair-Asks id = record {
    asked = λ s.
        let first = one_call {env = env} s.db (lists_ids id) in
        elim (get_friend_pair-db env.engine id s.db) [
          | inl one ↦ rw one (weaken (omega arith) (omega arith) first)
          | inr two ↦ rw two (
              then_calls {more = 1} first (
                weaken (omega arith) (omega arith)
                  (one_call (get_friend_list env.engine id s.db).0 (lists_names id))))
        ];
  }

  pub send_friend_list-Asks :
      (lib : JsonLib) (msg : Message) (session : SessionId)
      → Asks env 1 2 (send_friend_list lib env msg session)
  unfolding send_friend_list
  send_friend_list-Asks lib msg session =
      Asks-last _ _ (get_friend_pair-Asks (to_string msg.from_user_id)) λ pairs.
        Asks-guard _ _ (Asks-or_throw _)
          λ infos. Asks-guard _ _ (Asks-or_throw _) λ content. Asks-emit _
