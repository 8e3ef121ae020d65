-- ===== src/System/Delivery.antt =====
-- From a text that one connection reads to the text that another connection writes.
use tiny_im.Prelude.{
  suc, false, codes, ◌≡◌, refl, ap, ◌∙◌, ◌≢◌, List, [], ◌∷◌, ◌++◌, map, some, Bytes, All,
  All-append, c_str,
}
use tiny_im.Prelude.Int.{pos, next_int}
use tiny_im.Decimal.{to_string}
use tiny_im.Message.{Message, new, to_json, from_json}
use tiny_im.Message.Types.{MessageType, text, private_chat, message_type_to_string}
use tiny_im.Message.Json.{JsonLib, JsonLaws}
use tiny_im.Message.RoundTrip.{InRange, from_json-to_json}
use tiny_im.Database.Engine.{Works}
use tiny_im.Database.Pool.{Db, ok}
use tiny_im.Database.Pool.Frame.{IsHealthy, left, rotate}
use tiny_im.Database.Messages.{append_message}
use tiny_im.Handler.Chat.{send_message_to_user}
use tiny_im.Handler.State.{SessionId, State, Env, find}
use tiny_im.Handler.Chat.Delivery.{delivery, after_send, send_message_to_user-healthy}
use tiny_im.Handler.Dispatch.{dispatch, handle_incoming_message}
use tiny_im.Session
use tiny_im.Session.{Session, fresh, Outcome, returns, send}
use tiny_im.Session.Order.{at, map-snoc}
use tiny_im.Session.Drain.{IsCalm, drain, run-append, run-drain}
use tiny_im.Server
use tiny_im.Server.{Server}
use tiny_im.System.{
  System, update, deliver, shut_by, quiet, after_server, receives, works, step, run,
}
use tiny_im.System.Lines.{run-Reaches, updated, untouched}

-- The two tags of a chat message to one user.
abbrev pub IsChat : MessageType → Type 0
IsChat private_chat = Unit
IsChat text = Unit
IsChat _ = ⊥

module _ (lib : JsonLib) (env : Env) (msg : Message) where
  -- The copy for the receiver.
  abbrev pub copy : Message
  copy =
      new (pos env.now) msg.from_user_id msg.to_user_id text (next_int msg.message_id) msg.content

  -- The database with the message as its newest row, under the next row id.
  abbrev pub stored : Db → Db
  stored db =
      let id = suc db.tables.last_message_id in
      left
        (record db.tables {
          messages =
              db.tables.messages
              ++ record {
                message_id = id;
                from_user_id = to_string msg.from_user_id;
                to_user_id = to_string msg.to_user_id;
                message_type = codes "TEXT";
                content = c_str msg.content;
                timestamp = env.now;
              }
                ∷ [];
          last_message_id = id;
        })
        (rotate db.pool)

  -- A chat message is stored as the newest row, with the ids of its sender and its receiver, the
  -- type TEXT, its text as a C string and the time, and it is forwarded to the receiver's session,
  -- if there is one, and to nobody else; the session map stays as it is. The engine works and the
  -- pool is healthy.
  pub send_message_to_user-stored :
      (s : State)
      → Works env.engine
      → IsHealthy s.db
      → send_message_to_user env msg s
        ≡ (after_send s (stored s.db) (delivery (find msg.to_user_id s.sessions) copy), ok tt)
  unfolding append_message message_type_to_string
  send_message_to_user-stored s w h = send_message_to_user-healthy env msg s w h

  dispatch-chat :
      (t : MessageType) (origin : SessionId) (s : State)
      → IsChat t
      → Works env.engine
      → IsHealthy s.db
      → dispatch lib env t msg origin s
        ≡ (after_send s (stored s.db) (delivery (find msg.to_user_id s.sessions) copy), ok tt)
  unfolding dispatch
  dispatch-chat private_chat origin s c w h = send_message_to_user-stored s w h
  dispatch-chat text origin s c w h = send_message_to_user-stored s w h
  dispatch-chat _ origin s c w h = absurd c

  -- The system after the message was read.
  abbrev pub relayed : SessionId → System → System
  relayed receiver w = record {
    server = record w.server {
      handler =
          after_send (quiet w.server).handler (stored w.server.handler.db)
            (delivery (some receiver) copy);
    };
    lines = update w.lines receiver (send copy (w.lines receiver));
    shut = w.shut;
  }

  pub step-relayed :
      (origin receiver : SessionId) (input : Bytes) (w : System)
      → Works env.engine
      → IsHealthy w.server.handler.db
      → from_json lib input ≡ some msg
      → IsChat msg.message_type
      → find msg.to_user_id w.server.handler.sessions ≡ some receiver
      → step lib (receives env origin input) w ≡ some (relayed receiver w)
  unfolding step after_server deliver shut_by quiet Server.step Server.receive Server.settle
      handle_incoming_message
  step-relayed origin receiver input w good h read chat there =
      let start = quiet w.server in
      ap (λ o. after_server w (Server.receive lib env origin o start)) read
      ∙ ap (λ r. after_server w (Server.settle start r))
          (dispatch-chat msg.message_type origin start.handler chat good h)
      ∙ ap
          (λ o. after_server w (
            some (record start {
              handler = after_send start.handler (stored w.server.handler.db) (delivery o copy);
            })))
          there

  -- The receiver's queue, drained after one more call of `send`.
  drain-send :
      (es : List Session.Event) (line : Session) (ts : List Bytes) (t : Bytes)
      → All IsCalm es
      → Session.run lib es (returns fresh) ≡ returns line
      → map (to_json lib) line.asked ≡ map some ts
      → to_json lib copy ≡ some t
      → Session.run lib (drain (send copy line)) (returns (send copy line))
        ≡ returns (at [] [] [] (line.asked ++ copy ∷ []) (ts ++ t ∷ []) line.stops)
  unfolding send
  drain-send es line ts t calm ran dumped written =
      run-drain lib (es ++ Session.asks copy ∷ []) (send copy line) (ts ++ t ∷ [])
        (All-append IsCalm es (Session.asks copy ∷ []) calm (tt, tt))
        (run-append lib es (Session.asks copy ∷ []) (returns fresh)
          ∙ ap (Session.run lib (Session.asks copy ∷ [])) ran
          ∙ unfold Session.run Session.step in refl)
        (map-snoc lib line.asked ts copy t written dumped)

  -- A chat message that one connection reads is stored as the newest row, and after the closures
  -- and completions of the receiver's connection the JSON text of the copy is the last that this
  -- connection wrote, behind the texts of all it was given before; the text is read back as the
  -- copy, and no other connection is touched. The receiver is logged in on a connection that has
  -- had no failure and was not closed, the input is read as the message, all texts can be dumped,
  -- the numbers of the copy are in range, the JSON library keeps its laws, the engine works and
  -- the pool is healthy.
  pub chat-arrives :
      (origin receiver : SessionId) (input t : Bytes) (w : System) (es : List Session.Event)
      (ts : List Bytes)
      → JsonLaws lib
      → Works env.engine
      → IsHealthy w.server.handler.db
      → from_json lib input ≡ some msg
      → IsChat msg.message_type
      → find msg.to_user_id w.server.handler.sessions ≡ some receiver
      → w.shut receiver ≡ false
      → All IsCalm es
      → Session.run lib es (returns fresh) ≡ returns (w.lines receiver)
      → map (to_json lib) (w.lines receiver).asked ≡ map some ts
      → to_json lib copy ≡ some t
      → InRange copy
      → (w' : System) × (run lib
            (receives env origin input
              ∷ map (works receiver) (drain (send copy (w.lines receiver))))
            (some w)
          ≡ some w')
        × ((w'.lines receiver).sent ≡ ts ++ t ∷ [])
        × (from_json lib t ≡ some copy)
        × ((j : SessionId) → j ≢ receiver → w'.lines j ≡ w.lines j)
        × (w'.server.handler.db ≡ stored w.server.handler.db)
  unfolding run
  chat-arrives origin receiver input t w es ts laws good h read chat there unshut calm ran dumped
        written range =
      let w1 : System = relayed receiver w in
      let line : Session = send copy (w.lines receiver) in
      let r = run-Reaches lib receiver (drain line) w1 _ unshut (
        ap (λ l. Session.run lib (drain line) (returns l)) (updated lib receiver w line)
        ∙ drain-send es (w.lines receiver) ts t calm ran dumped written) in
      (
        r.last,
        ap (run lib (map (works receiver) (drain line)))
              (step-relayed origin receiver input w good h read chat there)
            ∙ r.runs_to,
        ap (λ (l : Session). l.sent) r.own,
        from_json-to_json lib laws copy t range written,
        λ j n. r.others j n ∙ untouched lib receiver w line j n,
        ap (λ (s : State). s.db) r.handler_kept,
      )
