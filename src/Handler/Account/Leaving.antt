-- ===== src/Handler/Account/Leaving.antt =====
-- Logout and the end of a session.
use tiny_im.Prelude.{
  ◌≡◌, refl, not, [], ◌∷◌, ◌++◌, Option, none, some, arith, if◌then◌else◌, ◌==◌, select,
}
use tiny_im.Prelude.Int.{ℤ, same_int, same_int_iff}
use tiny_im.Handler.State.{
  SessionId, closes, State, find, ◌>>=◌, ◌>>◌, bind, emit, lookup_session, set_sessions,
}
use tiny_im.Handler.Sessions.{SessionMap, UniqueKeys, find-erase}
use tiny_im.Handler.Account.{leave, logout_user, belongs, handle_disconnection}

leave-find :
    (user : ℤ) (session : SessionId) (s : State) (there : Option SessionId) (k : ℤ)
    → find user s.sessions ≡ there
    → let s' = (leave user session there s).0 in
      (find k s'.sessions ≡ (if same_int user k then none else find k s.sessions))
      × (s'.effects ≡ s.effects ++ closes session ∷ [])
      × (s'.db ≡ s.db)
unfolding leave emit set_sessions ◌>>◌ ◌>>=◌ bind
leave-find user session s none k e = (ground (arith, same_int_iff user k), refl, refl)
leave-find user session s (some other) k e = (find-erase user k s.sessions, refl, refl)

-- After a LOGOUT message that names a user, this user has no session in the map and everybody else
-- is found as before; the session that sent the message is closed, whether or not it was the
-- user's; the database stays as it is.
pub logout_user-find :
    (user : ℤ) (session : SessionId) (s : State) (k : ℤ)
    → let s' = (logout_user user session s).0 in
      (find k s'.sessions ≡ (if same_int user k then none else find k s.sessions))
      × (s'.effects ≡ s.effects ++ closes session ∷ [])
      × (s'.db ≡ s.db)
unfolding logout_user lookup_session ◌>>=◌ bind
logout_user-find user session s k = leave-find user session s (find user s.sessions) k refl

-- The session of a user, unless it is this one.
abbrev pub other_than : SessionId → Option SessionId → Option SessionId
other_than session none = none
other_than session (some v) = if v == session then none else some v

find-disconnected :
    (session : SessionId) (k : ℤ) (m : SessionMap)
    → UniqueKeys m
    → find k (select (λ e. not (belongs session e)) m) ≡ other_than session (find k m)
unfolding find
find-disconnected session k [] h = refl
find-disconnected session k ((i, v) ∷ m) h =
    ground (arith, find-disconnected session k m h.1, same_int_iff i k, h.0)

-- When a session ends and users are unique in the session map, its users are in the map no more
-- and every other user is found as before; effects and database stay as they are.
pub handle_disconnection-find :
    (session : SessionId) (s : State) (k : ℤ)
    → UniqueKeys s.sessions
    → let s' = (handle_disconnection session s).0 in
      (find k s'.sessions ≡ other_than session (find k s.sessions))
      × (s'.effects ≡ s.effects)
      × (s'.db ≡ s.db)
unfolding handle_disconnection set_sessions
handle_disconnection-find session s k h = (find-disconnected session k s.sessions h, refl, refl)
