-- ===== src/Service/Contacts.antt =====
-- `addFriend`, `ackAddFriend` and `sendFriendList` do what the service does.
use tiny_im.Prelude.{
  ◌≡◌, refl, ap, sym, subst, ◌∙◌, Bool, true, false, List, ◌++◌, Option, none, some, arith, Bytes,
  codes, same, append-nil, ◌>>=◌, Bool-cases, Option-cases, inl, inr,
}
use tiny_im.Prelude.Int.{pos, next_int, same_int, same_int_iff}
use tiny_im.Decimal.RoundTrip.{c_str-to_string}
use tiny_im.Message.{Message, new}
use tiny_im.Message.Types.{friend_list}
use tiny_im.Message.Json.{JsonLib}
use tiny_im.Database.Pool.{Db, Result, ok}
use tiny_im.Database.Pool.Frame.{left, rotate}
use tiny_im.Database.Calls.{adds}
use tiny_im.Database.Friends
use tiny_im.Database.Friends.{remove_friend}
use tiny_im.Database.Friends.Calls.{
  add_friend-healthy, ack_add_friend-healthy, remove_friend-healthy, both_ways,
}
use tiny_im.Database.Users.{get_user_name_by_id}
use tiny_im.Database.Contract.{View, does, Represents, name_of, Lists}
use tiny_im.Database.Contract.Writes.{
  add_friend-Represents, ack_add_friend-Represents, remove_friend-Represents,
}
use tiny_im.Database.Contract.Reads.{get_user_name_by_id-name_of, read-Represents}
use tiny_im.Database.Contract.Listing.{get_friend_pair-named_friends}
use tiny_im.Handler.State.{SessionId, Effect, sends, State, Env, find}
use tiny_im.Handler.State
use tiny_im.Handler.Runs.{run-ask}
use tiny_im.Handler.Contacts.{add_friend, ack_add_friend, send_friend_list, friend_infos}
use tiny_im.Handler.Contacts.Befriending.{add_friend_self, add_friend-requests, with_rows, notice}
use tiny_im.Service.{
  Service, Outcome, silent, sender, receiver, befriends, answers_request, listed, listing, Answers,
}
use tiny_im.Service.Shown.{Shown, Meets, IsFit, Meets-silent}

module _ (lib : JsonLib) (env : Env) (msg : Message) (session : SessionId) (s : State) (p : Service)
    (fit : IsFit env) (h : Shown s p) where
  -- The rows of a request, and the view that they show.
  requested_rows :
      Represents
        (with_rows s (both_ways (sender msg) (receiver msg) s.db.tables.friends)).db
        (does env.sha256 p.view (adds (sender msg) (receiver msg)))
  requested_rows =
      let done : Friends.add_friend env.engine (sender msg) (receiver msg) s.db ≡ (
        (with_rows s (both_ways (sender msg) (receiver msg) s.db.tables.friends)).db,
        ok true,
      ) =
        add_friend-healthy fit.works s.db (sender msg) (receiver msg) h.represents.healthy
        ∙ rw (c_str-to_string msg.from_user_id, c_str-to_string msg.to_user_id) refl in
      subst (λ r. Represents r.0 (does env.sha256 p.view (adds (sender msg) (receiver msg)))) done
        (add_friend-Represents fit.works env.sha256 (sender msg) (receiver msg) s.db p.view
          h.represents)

  befriends-Meets :
      (b : Bool)
      → same_int msg.from_user_id msg.to_user_id ≡ b
      → Meets s (add_friend env msg s).0 (befriends lib env msg session p b)
  unfolding does
  befriends-Meets true e =
      subst (λ r. Meets s r.0 (silent p))
        (sym (add_friend_self env msg s ((same_int_iff msg.from_user_id msg.to_user_id).0 e)))
        (Meets-silent s p h)
  befriends-Meets false e =
      let v = does env.sha256 p.view (adds (sender msg) (receiver msg)) in
      let rows = with_rows s (both_ways (sender msg) (receiver msg) s.db.tables.friends) in
      let name = name_of (p.view.account (sender msg)) in
      let named : get_user_name_by_id env.engine (sender msg) rows.db
          ≡ (left rows.db.tables (rotate rows.db.pool), ok name) =
        get_user_name_by_id-name_of fit.works fit.reads rows.db v requested_rows (sender msg)
        ∙ ap (λ k. (left rows.db.tables (rotate rows.db.pool), ok (name_of (p.view.account k))))
            (c_str-to_string msg.from_user_id) in
      subst (λ r. Meets s r.0 (befriends lib env msg session p false))
        (sym (
          add_friend-requests env msg s _ name fit.works h.represents.healthy
            (λ q. ground (arith, same_int_iff msg.from_user_id msg.to_user_id)) named))
        (record {
          effects =
              ap (λ m. s.effects ++ notice env msg name (find msg.to_user_id m)) h.same_sessions;
          shown = record {
            same_sessions = h.same_sessions;
            represents = read-Represents fit.works fit.reads rows.db v requested_rows;
          };
        })

  pub add_friend-Meets :
      Meets s
        (add_friend env msg s).0
        (befriends lib env msg session p (same_int msg.from_user_id msg.to_user_id))
  add_friend-Meets = befriends-Meets (same_int msg.from_user_id msg.to_user_id) refl

  asked-Meets :
      (q : Db → Db × Result Bool) (db : Db) (v : View)
      → q s.db ≡ (db, ok true)
      → Represents (q s.db).0 v
      → Meets s
          ((State.◌>>=◌ (State.ask q) (λ done. State.pure tt)) s).0
          (silent (record p { view = v }))
  unfolding State.pure
  asked-Meets q db v done r =
      subst (λ t. Meets s t.0 (silent (record p { view = v }))) (sym (run-ask q _ s db true done))
        (record {
          effects = sym (append-nil s.effects);
          shown = record {
            same_sessions = h.same_sessions;
            represents = subst (λ t. Represents t.0 v) done r;
          };
        })

  pub ack_add_friend-Meets :
      Meets s (ack_add_friend env msg s).0 (answers_request lib env msg session p)
  unfolding ack_add_friend State.pure
  ack_add_friend-Meets = elim (Bool-cases (same msg.content (codes "reject"))) [
    | inl y ↦ rw y (
        asked-Meets (remove_friend env.engine (receiver msg) (sender msg)) _ _
          (remove_friend-healthy fit.works s.db (receiver msg) (sender msg) h.represents.healthy)
          (remove_friend-Represents fit.works env.sha256 (receiver msg) (sender msg) s.db p.view
            h.represents))
    | inr n ↦ elim (Bool-cases (same msg.content (codes "accept"))) [
      | inl y ↦
          rw (n, y)
            (asked-Meets (Friends.ack_add_friend env.engine (receiver msg) (sender msg)) _ _
              (ack_add_friend-healthy fit.works s.db (receiver msg) (sender msg)
                h.represents.healthy)
              (ack_add_friend-Represents fit.works env.sha256 (receiver msg) (sender msg) s.db
                p.view h.represents))
      | inr m ↦ rw (n, m) (Meets-silent s p h)
    ]
  ]

  -- The end of `sendFriendList`, from the objects of the friends on.
  abbrev sends_infos : Option (List lib.Json) → State.M (Unit {0})
  sends_infos o = State.◌>>=◌ (State.or_throw o) (λ infos.
      State.◌>>=◌ (State.or_throw (lib.dump (lib.array infos))) (λ content. State.emit (
        sends session (
          new (pos env.now) msg.from_user_id msg.to_user_id friend_list (next_int msg.message_id)
            content))))

  abbrev dumped : Option (List lib.Json) → Option Bytes
  dumped o = do infos ← o; lib.dump (lib.array infos)

  sends_infos-listed :
      (o : Option (List lib.Json)) (u : State)
      → (sends_infos o u).0
        ≡ (record u { effects = u.effects ++ listed lib env msg session (dumped o) })
  unfolding State.◌>>=◌ State.bind State.or_throw State.emit
  sends_infos-listed none u = ap (λ xs. record u { effects = xs }) (sym (append-nil u.effects))
  sends_infos-listed (some infos) u = elim (Option-cases (lib.dump (lib.array infos))) [
    | inl n ↦ rw n (ap (λ xs. record u { effects = xs }) (sym (append-nil u.effects)))
    | inr (content, d) ↦ rw d refl
  ]

  pub send_friend_list-Meets :
      (o : Outcome) × Answers lib env msg session friend_list p o
      × Meets s (send_friend_list lib env msg session s).0 o
  unfolding send_friend_list
  send_friend_list-Meets =
      let (ids, exact, pairs, up, eq) =
        get_friend_pair-named_friends fit.works fit.reads s.db p.view h.represents (sender msg) in
      let out : Outcome = (listed lib env msg session (listing lib env msg session pairs), p) in
      (
        out,
        (
          ids,
          pairs,
          subst (λ k. Lists ids k p.view) (c_str-to_string msg.from_user_id) exact,
          up,
          refl,
        ),
        subst (λ t. Meets s t.0 out) (sym (run-ask _ _ s _ pairs eq))
            (subst (λ t. Meets s t out) (sym (sends_infos-listed (friend_infos lib env pairs) _))
              (record {
                effects = refl;
                shown = record {
                  same_sessions = h.same_sessions;
                  represents =
                      read-Represents fit.works fit.reads (left s.db.tables (rotate s.db.pool))
                        p.view (read-Represents fit.works fit.reads s.db p.view h.represents);
                };
              })),
      )
