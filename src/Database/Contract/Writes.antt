-- ===== src/Database/Contract/Writes.antt =====
-- Each write of `Database` leaves tables that show what the contract does.
use tiny_im.Prelude.{
  ℕ, suc, ◌≡◌, refl, ap, sym, subst, ◌∙◌, true, false, List, [], ◌∷◌, ◌++◌, Option, some, Bytes,
  c_str, same, if◌then◌else◌,
}
use tiny_im.Database.Schema.{Tables, Friend, OfflineMessage, Statement, insert_message}
use tiny_im.Database.Engine.{Engine, Works}
use tiny_im.Database.Pool.{Db, query}
use tiny_im.Database.Pool.Frame.{IsHealthy, IsHealthy-rotate, rotate, left, query-healthy}
use tiny_im.Database.Friends.{add_friend, ack_add_friend, remove_friend}
use tiny_im.Database.Friends.Calls.{
  add_friend-healthy, ack_add_friend-healthy, remove_friend-healthy, with_friends,
}
use tiny_im.Database.Messages.{
  append_message, store_message, store_offline_message, mark_messages_as_read,
}
use tiny_im.Database.Messages.Offline.{
  kept, with_offline, kept-append, kept-drop, store_offline_message-healthy,
  mark_messages_as_read-healthy,
}
use tiny_im.Database.Calls.{adds, acks, removes, keeps, marks, stores}
use tiny_im.Database.Contract.Pairs.{both_ways-Tells, accept_pair-Tells, delete_pair-Tells}
use tiny_im.Database.Contract.{Tells, View, does, Shows, Represents}

module _ {e : Engine} (w : Works e) where
  -- A query whose rows were read or written shows what its statement leaves.
  pub query-Represents {ℓ} :
      {A : Type ℓ}
      → (s : Statement) (failed : A) (run : Tables → Tables × Option A) (db : Db) (t' : Tables)
        (a : A) (v : View)
      → IsHealthy db
      → run db.tables ≡ (t', some a)
      → Shows t' v
      → Represents (query e s failed run db).0 v
  query-Represents s failed run db t' a v h r shows =
      subst (λ q. Represents q.0 v) (sym (query-healthy e s failed run w db t' a h r))
        (record { healthy = IsHealthy-rotate t' db h; shows = shows })

  pub store_message-Represents :
      (sha256 : Bytes → Bytes) (now : ℕ) (from to type content : Bytes) (db : Db) (v : View)
      → Represents db v
      → Represents
          (store_message e now from to type content db).0
          (does sha256 v (stores now from to type content))
  unfolding store_message does append_message
  store_message-Represents sha256 now from to type content db v r =
      query-Represents insert_message false _ db
        (append_message now (c_str from) (c_str to) (c_str type) (c_str content) db.tables) true _
        r.healthy (rw (w.writes_all db.tables insert_message) refl)
        (record {
          accounts = r.shows.accounts;
          pairs = r.shows.pairs;
          kept_all = r.shows.kept_all;
          talk_all = rw (r.shows.talk_all, r.shows.sequence_all) refl;
          sequence_all = ap suc r.shows.sequence_all;
        })

  -- Only the friends table changes, and its statuses are those of the view.
  pub friends-Represents :
      (db : Db) (v : View) (fs : List Friend) (status : Bytes → Bytes → Option ℕ)
      → Represents db v
      → Tells fs status
      → Represents
          (left (with_friends db.tables fs) (rotate db.pool))
          (record v { status = status })
  friends-Represents db v fs status r h = record {
    healthy = IsHealthy-rotate (with_friends db.tables fs) db r.healthy;
    shows = record {
      accounts = r.shows.accounts;
      pairs = h;
      kept_all = r.shows.kept_all;
      talk_all = r.shows.talk_all;
      sequence_all = r.shows.sequence_all;
    };
  }

  pub add_friend-Represents :
      (sha256 : Bytes → Bytes) (a b : Bytes) (db : Db) (v : View)
      → Represents db v
      → Represents (add_friend e a b db).0 (does sha256 v (adds a b))
  unfolding does
  add_friend-Represents sha256 a b db v r =
      subst (λ q. Represents q.0 (does sha256 v (adds a b)))
        (sym (add_friend-healthy w db a b r.healthy))
        (friends-Represents db v _ _ r
          (both_ways-Tells (c_str a) (c_str b) db.tables.friends v.status r.shows.pairs))

  pub ack_add_friend-Represents :
      (sha256 : Bytes → Bytes) (a b : Bytes) (db : Db) (v : View)
      → Represents db v
      → Represents (ack_add_friend e a b db).0 (does sha256 v (acks a b))
  unfolding does
  ack_add_friend-Represents sha256 a b db v r =
      subst (λ q. Represents q.0 (does sha256 v (acks a b)))
        (sym (ack_add_friend-healthy w db a b r.healthy))
        (friends-Represents db v _ _ r
          (accept_pair-Tells (c_str a) (c_str b) db.tables.friends v.status r.shows.pairs))

  pub remove_friend-Represents :
      (sha256 : Bytes → Bytes) (a b : Bytes) (db : Db) (v : View)
      → Represents db v
      → Represents (remove_friend e a b db).0 (does sha256 v (removes a b))
  unfolding does
  remove_friend-Represents sha256 a b db v r =
      subst (λ q. Represents q.0 (does sha256 v (removes a b)))
        (sym (remove_friend-healthy w db a b r.healthy))
        (friends-Represents db v _ _ r
          (delete_pair-Tells (c_str a) (c_str b) db.tables.friends v.status r.shows.pairs))

  -- Only the kept messages change.
  pub offline-Represents :
      (db : Db) (v : View) (ms : List OfflineMessage) (kept_of : Bytes → List Bytes)
      → Represents db v
      → ((k : Bytes) → kept k (with_offline db.tables ms) ≡ kept_of k)
      → Represents
          (left (with_offline db.tables ms) (rotate db.pool))
          (record v { kept_of = kept_of })
  offline-Represents db v ms kept_of r h = record {
    healthy = IsHealthy-rotate (with_offline db.tables ms) db r.healthy;
    shows = record {
      accounts = r.shows.accounts;
      pairs = r.shows.pairs;
      kept_all = h;
      talk_all = r.shows.talk_all;
      sequence_all = r.shows.sequence_all;
    };
  }

  pub store_offline_message-Represents :
      (sha256 : Bytes → Bytes) (id content : Bytes) (db : Db) (v : View)
      → Represents db v
      → Represents (store_offline_message e id content db).0 (does sha256 v (keeps id content))
  unfolding does
  store_offline_message-Represents sha256 id content db v r =
      subst (λ q. Represents q.0 (does sha256 v (keeps id content)))
        (sym (store_offline_message-healthy w db id r.healthy content))
        (offline-Represents db v _ _ r (λ k.
          kept-append k db.tables.offline_messages _
          ∙ ap (λ l. l ++ (if same (c_str id) k then c_str content ∷ [] else []))
              (r.shows.kept_all k)))

  pub mark_messages_as_read-Represents :
      (sha256 : Bytes → Bytes) (id : Bytes) (db : Db) (v : View)
      → Represents db v
      → Represents (mark_messages_as_read e id db).0 (does sha256 v (marks id))
  unfolding does
  mark_messages_as_read-Represents sha256 id db v r =
      subst (λ q. Represents q.0 (does sha256 v (marks id)))
        (sym (mark_messages_as_read-healthy w db id r.healthy))
        (offline-Represents db v _ _ r (λ k.
          kept-drop (c_str id) k db.tables.offline_messages
          ∙ ap (λ l. if same (c_str id) k then [] else l) (r.shows.kept_all k)))
