-- ===== src/Server/Delivery.antt =====
-- src/server/connection_passer.rs and src/server.rs: what comes from a connection to the user of the
-- server, and all the way from the websocket.
use mathlib.Core.List.{append-nil, append_assoc}
use rrev.Prelude.{
  ◌≡◌, refl, sym, ap, ◌∙◌, List, [], ◌∷◌, ◌++◌, arith, ite, if_pos, map, inl, inr,
  ControlFlow-cases,
}
use rrev.Prelude.Map.{Map}
use rrev.Prelude.Prefix.{Prefix, Prefix-trans, flat, said, flat-Prefix, flat-flat, said-push_all}
use rrev.Channel.{SocketAddr, SocketAddr-discrete}
use rrev.Scheme.{Parser, Message, TheirMessage}
use rrev.Runtime.{Tokio, World, Wire, Packet, Entry, to_connection, to_server, to_user, packets}
use rrev.Connection.Types.{Connection, ConnectionEvent, ConnectionHdl, ConnectionMessage, Receiver}
use rrev.Connection.{Turn}
use rrev.Connection as Connections
use rrev.Connection.Receiver as Reader
use rrev.Connection.Receiver.{ReceiverTurn}
use rrev.Connection.Delivery.{
  for_owner, sent_inside, turn_words, event_words, sent_owner, frame_words, receiver_tells,
  run_tells,
}
use rrev.Server.Types.{Server, ServerMessage, ServerEvent, PassersServerHandle}
use rrev.Server.{handle_message, serve, run}
use rrev.Server.ConnectionPasser.{pass_messages}
use rrev.Server.Registry.{serve-go_on, serve-stop}
use rrev.Server.Shutdown.{farewells, run-packets}
use rrev.Server.Wiring.{pass_messages_lem}

module _ {P : Parser} (addr : SocketAddr) where
  -- What is said under the address: in a message to the server, in a packet to it, and in a packet
  -- to its user.
  abbrev pub message_words : ServerMessage P → List (TheirMessage P)
  message_words (ServerMessage.connection_event from e) =
      ite (SocketAddr-discrete from addr) (event_words e) []
  message_words _ = []

  abbrev pub sent_server : Packet P → List (TheirMessage P)
  sent_server (to_server tx m) = message_words m
  sent_server _ = []

  abbrev pub shown_words : ServerEvent P → List (TheirMessage P)
  shown_words (ServerEvent.connection_event e) =
      ite (SocketAddr-discrete e.from addr) (Message.event e.event ∷ []) []
  shown_words (ServerEvent.connection_request r) =
      ite (SocketAddr-discrete r.from addr) (Message.request r.request.request ∷ []) []
  shown_words _ = []

  abbrev pub sent_user : Packet P → List (TheirMessage P)
  sent_user (to_user tx e) = shown_words e
  sent_user _ = []

  passed_words :
      (hdl : PassersServerHandle P) (es : List (ConnectionEvent P))
      → flat sent_server (map (λ e. to_server hdl.tx (ServerMessage.connection_event addr e)) es)
        ≡ flat event_words es
  passed_words hdl [] = refl
  passed_words hdl (e ∷ es) =
      rw (if_pos (SocketAddr-discrete addr addr) refl, passed_words hdl es) refl

module _ {P : Parser} where
  farewells_silent :
      (addr : SocketAddr) (m : Map SocketAddr (ConnectionHdl P)) (ps : List (Packet P))
      → said (sent_user addr) (farewells m ++ ps) ≡ said (sent_user addr) ps
  farewells_silent addr [] ps = refl
  farewells_silent addr ((a, hdl) ∷ m) ps =
      rw (append_assoc (farewells m) (to_connection hdl.tx ConnectionMessage.close ∷ []) ps) (
        farewells_silent addr m (to_connection hdl.tx ConnectionMessage.close ∷ ps)
        ∙ append-nil (said (sent_user addr) ps))

module _ {P : Parser} {tokio : Tokio P} where
  -- The server is told a prefix of the events that the passer is given.
  passer_tells :
      (es : List (ConnectionEvent P)) (hdl : PassersServerHandle P) (addr : SocketAddr)
      (w : World tokio)
      → w.history ≡ []
      → Prefix
          (said (sent_server addr) (packets (pass_messages es hdl addr w).1.history))
          (flat event_words es)
  passer_tells es hdl addr w fresh =
      let (taken, all, sent_on, end) = pass_messages_lem es hdl addr w in
      let told : said (sent_server addr) (packets (pass_messages es hdl addr w).1.history)
          ≡ flat event_words taken =
        ap (said (sent_server addr)) sent_on
        ∙ said-push_all (sent_server addr)
            (map (λ e. to_server hdl.tx (ServerMessage.connection_event addr e)) taken)
            (packets w.history)
        ∙ ap
            (λ (h : List (Entry P)).
              said (sent_server addr) (packets h)
              ++ flat (sent_server addr)
                  (map (λ e. to_server hdl.tx (ServerMessage.connection_event addr e)) taken))
            fresh
        ∙ passed_words addr hdl taken in
      let (rest, e) = flat-Prefix event_words taken es (_, all) in
      (rest, e ∙ ap (λ l. l ++ rest) (sym told))

  handle_message_tells :
      (addr : SocketAddr) (s : Server P) (m : ServerMessage P) (w : World tokio)
      → said (sent_user addr) (packets (handle_message s m w).1.history)
        ≡ said (sent_user addr) (packets w.history) ++ message_words addr m
  unfolding handle_message
  handle_message_tells addr s (ServerMessage.connection_event from ConnectionEvent.close) w =
      ground (arith, append-nil (said (sent_user addr) (packets w.history)))
  handle_message_tells addr s
        (ServerMessage.connection_event from (ConnectionEvent.event_message e)) w =
      refl
  handle_message_tells addr s
        (ServerMessage.connection_event from (ConnectionEvent.request_message r)) w =
      refl
  handle_message_tells addr s m w =
      ground (arith, append-nil (said (sent_user addr) (packets w.history)))

  serve_tells :
      (addr : SocketAddr) (ms : List (ServerMessage P)) (s : Server P) (w : World tokio)
      → Prefix
          (said (sent_user addr) (packets (serve s ms w).1.history))
          (said (sent_user addr) (packets w.history) ++ flat (message_words addr) ms)
  serve_tells addr [] s w = unfold serve in ([], refl)
  serve_tells addr (m ∷ ms) s w =
      let before : List (TheirMessage P) = said (sent_user addr) (packets w.history) in
      let after : List (TheirMessage P) = flat (message_words addr) ms in
      let one : before ++ (message_words addr m ++ after)
          ≡ said (sent_user addr) (packets (handle_message s m w).1.history) ++ after =
        sym (append_assoc before (message_words addr m) after)
        ∙ ap (λ l. l ++ after) (sym (handle_message_tells addr s m w)) in
      elim (ControlFlow-cases (handle_message s m w).0.1) [
        | inl e ↦
            let (rest, all) =
              serve_tells addr ms (handle_message s m w).0.0 (handle_message s m w).1 in
            rw (serve-go_on s m ms w e) (rest, one ∙ all)
        | inr e ↦ rw (serve-stop s m ms w e) (after, one)
      ]

  -- The user is told a prefix of what comes to the server under the address.
  server_tells :
      (addr : SocketAddr) (s : Server P) (ms : List (ServerMessage P)) (w : World tokio)
      → w.history ≡ []
      → Prefix
          (said (sent_user addr) (packets (run s ms w).1.history))
          (flat (message_words addr) ms)
  server_tells addr s ms w fresh =
      let (p, w') = serve s ms w in
      let entries = (tokio.traverse p.state.connections w'.env).0 in
      let (rest, all) = serve_tells addr ms s w in
      let silent : said (sent_user addr) (packets (run s ms w).1.history)
          ≡ said (sent_user addr) (packets w'.history) =
        ap (said (sent_user addr)) (run-packets s ms w)
        ∙ append-nil _
        ∙ append-nil _
        ∙ farewells_silent addr entries (packets w'.history) in
      let start : said (sent_user addr) (packets w.history) ++ flat (message_words addr) ms
          ≡ flat (message_words addr) ms =
        ap
          (λ (h : List (Entry P)).
            said (sent_user addr) (packets h) ++ flat (message_words addr) ms)
          fresh in
      (rest, sym start ∙ all ∙ ap (λ l. l ++ rest) (sym silent))

  -- The requests and events of a connection that the user of the server is sent under its address
  -- are a prefix of those in the frames that the websocket brought, in their order, wherever tasks
  -- fail or end, and whatever else comes between: if each channel brings a prefix of what was sent
  -- over it, and under the address come only the events of this connection.
  pub user-Prefix :
      (wire : Wire P) (r : Receiver P) (frames : List (ReceiverTurn wire)) (c : Connection P)
      (ts : List (Turn P)) (es : List (ConnectionEvent P)) (hdl : PassersServerHandle P)
      (addr : SocketAddr) (s : Server P) (ms : List (ServerMessage P)) (w1 w2 w3 w4 : World tokio)
      → w1.history ≡ []
      → w2.history ≡ []
      → w3.history ≡ []
      → w4.history ≡ []
      → Prefix
          (flat turn_words ts)
          (said sent_inside (packets (Reader.run wire r frames w1).1.history))
      → Prefix (flat event_words es) (said sent_owner (packets (Connections.run c ts w2).1.history))
      → Prefix
          (flat (message_words addr) ms)
          (said (sent_server addr) (packets (pass_messages es hdl addr w3).1.history))
      → Prefix
          (said (sent_user addr) (packets (run s ms w4).1.history))
          (flat for_owner (flat (frame_words wire) frames))
  user-Prefix wire r frames c ts es hdl addr s ms w1 w2 w3 w4 f1 f2 f3 f4 inside owner server =
      let heard = Prefix-trans _ _ _ inside (receiver_tells wire r frames w1 f1) in
      let owned : Prefix (said sent_owner (packets (Connections.run c ts w2).1.history))
          (flat for_owner (flat turn_words ts)) =
        let (rest, e) = run_tells c ts w2 f2 in (rest, flat-flat turn_words for_owner ts ∙ e) in
      let passed =
        Prefix-trans _ _ _ owner (Prefix-trans _ _ _ owned (flat-Prefix for_owner _ _ heard)) in
      let served =
        Prefix-trans _ _ _ server (Prefix-trans _ _ _ (passer_tells es hdl addr w3 f3) passed) in
      Prefix-trans _ _ _ (server_tells addr s ms w4 f4) served
