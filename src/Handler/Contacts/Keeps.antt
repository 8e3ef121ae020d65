-- ===== src/Handler/Contacts/Keeps.antt =====
-- The session map under requests, their answers and friend lists.
use tiny_im.Prelude.{
  Bool, true, false, Option, none, some, Bytes, codes, same, Bool-cases, inl, inr,
}
use tiny_im.Prelude.Int.{ℤ}
use tiny_im.Message.{Message}
use tiny_im.Message.Json.{JsonLib}
use tiny_im.Handler.State.{SessionId, Env}
use tiny_im.Handler.Sessions.{SessionMap}
use tiny_im.Handler.Keeps.{Keeps, keeping}
use tiny_im.Handler.Contacts.{
  notify, notify_named, requested, request, add_friend, ack_add_friend, send_friend_list,
}

module _ (env : Env) (P : SessionMap → Type 0) where
  notify-Keeps : (a b : ℤ) (name : Bytes) (o : Option SessionId) → Keeps P (notify env a b name o)
  unfolding notify
  notify-Keeps a b name none = search keeping
  notify-Keeps a b name (some session) = search keeping

  notify_named-Keeps : (a b : ℤ) (o : Option Bytes) → Keeps P (notify_named env a b o)
  unfolding notify_named
  notify_named-Keeps a b none = search keeping
  notify_named-Keeps a b (some name) = search (keeping, notify-Keeps)

  requested-Keeps : (a b : ℤ) (done : Bool) → Keeps P (requested env a b done)
  unfolding requested
  requested-Keeps a b false = search keeping
  requested-Keeps a b true = search (keeping, notify_named-Keeps)

  request-Keeps : (a b : ℤ) (self : Bool) → Keeps P (request env a b self)
  unfolding request
  request-Keeps a b true = search keeping
  request-Keeps a b false = search (keeping, requested-Keeps)

  pub add_friend-Keeps : (msg : Message) → Keeps P (add_friend env msg)
  unfolding add_friend
  add_friend-Keeps msg = request-Keeps msg.from_user_id msg.to_user_id _

  pub ack_add_friend-Keeps : (msg : Message) → Keeps P (ack_add_friend env msg)
  unfolding ack_add_friend
  ack_add_friend-Keeps msg = elim (Bool-cases (same msg.content (codes "reject"))) [
    | inl y ↦ rw y (search keeping)
    | inr n ↦ rw n (elim (Bool-cases (same msg.content (codes "accept"))) [
      | inl y ↦ rw y (search keeping)
      | inr m ↦ rw m (search keeping)
    ])
  ]

  pub send_friend_list-Keeps :
      (lib : JsonLib) (msg : Message) (session : SessionId)
      → Keeps P (send_friend_list lib env msg session)
  unfolding send_friend_list
  send_friend_list-Keeps lib msg session = search keeping depth 8
