-- ===== src/Handler/Contacts.antt =====
-- `addFriend`, `ackAddFriend` and `sendFriendList`.
pub mod Keeps
pub mod Scripts
pub mod Befriending
pub mod Asking
use tiny_im.Prelude.{
  ℕ, Bool, true, false, not, List, [], ◌∷◌, ◌++◌, Option, none, some, if◌then◌else◌, select, Bytes,
  codes, same,
}
use tiny_im.Prelude.Int.{ℤ, pos, next_int, same_int}
use tiny_im.Decimal.{to_string, stoi}
use tiny_im.Message.{Message, new, get_from_user_id, get_to_user_id, get_message_id, get_content}
use tiny_im.Message.Types.{friend_request, friend_list}
use tiny_im.Message.Json.{JsonLib}
use tiny_im.Database.Users.{get_user_name_by_id}
use tiny_im.Database.Friends
use tiny_im.Database.Friends.{remove_friend, get_friend_pair}
use tiny_im.Handler.State.{
  SessionId, Effect, sends, closes, State, Env, find, M, bind, ◌>>=◌, ◌>>◌, pure, ask, or_throw,
  emit, lookup_session,
}

module _ (env : Env) where
  open env use {engine, now, garbage}

  -- The message shadows the parameter, as in `loginUser`.
  notify : ℤ → ℤ → Bytes → Option SessionId → M (Unit {0})
  notify user_id friend_id username none = pure tt
  notify user_id friend_id username (some session) =
      emit
        (sends session (new (pos now) user_id friend_id friend_request (next_int garbage) username))

  notify_named : ℤ → ℤ → Option Bytes → M (Unit {0})
  unfolding notify
  notify_named user_id friend_id none = pure tt
  notify_named user_id friend_id (some username) = do
    there ← lookup_session friend_id
    notify user_id friend_id username there

  requested : ℤ → ℤ → Bool → M (Unit {0})
  unfolding notify_named
  requested user_id friend_id false = pure tt
  requested user_id friend_id true = do
    username ← ask (get_user_name_by_id engine (to_string user_id))
    notify_named user_id friend_id username

  request : ℤ → ℤ → Bool → M (Unit {0})
  unfolding requested
  request user_id friend_id true = pure tt
  request user_id friend_id false = do
    done ← ask (Friends.add_friend engine (to_string user_id) (to_string friend_id))
    requested user_id friend_id done

  unfoldable pub add_friend : Message → M (Unit {0})
  unfolding request
  add_friend msg =
      request (get_from_user_id msg) (get_to_user_id msg)
        (same_int (get_from_user_id msg) (get_to_user_id msg))

  unfoldable pub ack_add_friend : Message → M (Unit {0})
  ack_add_friend msg =
      let user_id = to_string (get_from_user_id msg) in
      let friend_id = to_string (get_to_user_id msg) in
      let reject = ask (remove_friend engine friend_id user_id) >>= λ done. pure tt in
      let accept = ask (Friends.ack_add_friend engine friend_id user_id) >>= λ done. pure tt in
      if same (get_content msg) (codes "reject")
      then reject
      else if same (get_content msg) (codes "accept")
      then accept
      else pure tt

module _ (lib : JsonLib) (env : Env) where
  open lib use {Json, dump, of_int, of_text, object, array}
  open env use {engine, now}

  friend_info : ℤ → Bytes → Json
  friend_info id name = object (
      (codes "id", of_int id)
      ∷ (codes "name", of_text name)
      ∷ (codes "avatar", of_text (codes "./default.png"))
      ∷ [])

  -- The loop over the pairs; `stoi` may throw.
  unfoldable pub friend_infos : List (Bytes × Bytes) → Option (List Json)
  unfolding friend_info
  friend_infos [] = some []
  friend_infos ((id, name) ∷ ps) = elim (stoi id) [
    | none ↦ none
    | some i ↦ elim (friend_infos ps) [ none ↦ none | some js ↦ some (friend_info i name ∷ js) ]
  ]

  unfoldable pub send_friend_list : Message → SessionId → M (Unit {0})
  send_friend_list msg session = do
    pairs ← ask (get_friend_pair engine (to_string (get_from_user_id msg)))
    infos ← or_throw (friend_infos pairs)
    content ← or_throw (dump (array infos))
    emit (
        sends session (
          new (pos now) (get_from_user_id msg) (get_to_user_id msg) friend_list
            (next_int (get_message_id msg)) content))
