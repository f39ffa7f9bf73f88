-- ===== src/Server/Shutdown.antt =====
-- src/server.rs: what `run` does after its loop, and which events the user is never sent.
use rrev.Prelude.{ℕ, ◌+◌, ◌≡◌, refl, ap, ◌∙◌, sym, List, [], ◌∷◌, ◌++◌, arith}
use mathlib.Core.List.{append_assoc}
use rrev.Prelude.Map.{SameEntries, Map}
use rrev.Channel.{SocketAddr, SocketAddr-discrete}
use rrev.Scheme.{Parser}
use rrev.Connection.Types.{ConnectionHdl, ConnectionMessage}
use rrev.Connection.Types as ConnectionTypes
use rrev.Runtime.{
  Traverses, Tokio, World, Packet, send, to_connection, to_acceptor, to_listener, to_user, packets,
}
use rrev.Server.Types.{Server, ServerMessage, ServerEvent, AcceptorMessage, ListenerMessage}
use rrev.Server.{handle_message, serve, close_connections, close_all, run}
use rrev.Server.Registry.{Listed, serve_keeps, handle_message-Listed}

module _ {P : Parser} where
  -- One close for each connection, the last sent first.
  abbrev pub farewells : Map SocketAddr (ConnectionHdl P) → List (Packet P)
  farewells [] = []
  farewells ((_, hdl) ∷ m) = farewells m ++ to_connection hdl.tx ConnectionMessage.close ∷ []

  -- How often the user was sent `ServerEvent::Close`.
  abbrev pub close_events : List (Packet P) → ℕ
  close_events [] = 0
  close_events (to_user _ ServerEvent.close ∷ ps) = 1 + close_events ps
  close_events (_ ∷ ps) = close_events ps

  close_events-farewells :
      (m : Map SocketAddr (ConnectionHdl P)) (ps : List (Packet P))
      → close_events (farewells m ++ ps) ≡ close_events ps
  close_events-farewells [] ps = refl
  close_events-farewells ((_, hdl) ∷ m) ps =
      rw (append_assoc (farewells m) (to_connection hdl.tx ConnectionMessage.close ∷ []) ps)
        (close_events-farewells m (to_connection hdl.tx ConnectionMessage.close ∷ ps))

module _ {P : Parser} {tokio : Tokio P} where
  close_connections-packets :
      (m : Map SocketAddr (ConnectionHdl P)) (w : World tokio)
      → packets (close_connections m w).1.history ≡ farewells m ++ packets w.history
  unfolding close_connections
  close_connections-packets [] w = refl
  close_connections-packets ((_, hdl) ∷ m) w =
      close_connections-packets m (send (to_connection hdl.tx ConnectionMessage.close) w).1
      ∙ sym (append_assoc (farewells m) _ (packets w.history))

  pub run-packets :
      (s : Server P) (ms : List (ServerMessage P)) (w : World tokio)
      → let (p, w') = serve s ms w in
        packets (run s ms w).1.history
        ≡ to_listener p.state.listener_hdl.tx ListenerMessage.close
            ∷ to_acceptor p.state.acceptor_hdl.tx AcceptorMessage.close
            ∷ farewells (tokio.traverse p.state.connections w'.env).0
          ++ packets w'.history
  unfolding run close_all
  run-packets s ms w =
      let (p, w') = serve s ms w in
      let (entries, env') = tokio.traverse p.state.connections w'.env in
      ap
        (λ l.
          to_listener p.state.listener_hdl.tx ListenerMessage.close
          ∷ to_acceptor p.state.acceptor_hdl.tx AcceptorMessage.close
          ∷ l)
        (close_connections-packets entries (record w' { env = env' }))

  -- However the loop ends and whichever sends fail, the server then tells every connection that it
  -- has to close, each once, in some order, and no other, then the acceptor, then the listener, if
  -- it began with distinct addresses and a traversal of a map meets each entry once.
  pub run-farewells :
      (s : Server P) (ms : List (ServerMessage P)) (w : World tokio)
      → Traverses tokio
      → Listed s
      → let (p, w') = serve s ms w in
        (entries : Map SocketAddr (ConnectionHdl P)) × SameEntries SocketAddr-discrete entries
          p.state.connections
        × (packets (run s ms w).1.history
            ≡ to_listener p.state.listener_hdl.tx ListenerMessage.close
                ∷ to_acceptor p.state.acceptor_hdl.tx AcceptorMessage.close
                ∷ farewells entries
              ++ packets w'.history)
  run-farewells s ms w all d =
      let (p, w') = serve s ms w in
      (
        (tokio.traverse p.state.connections w'.env).0,
        all.each_once SocketAddr-discrete p.state.connections w'.env
            (serve_keeps (λ s' _. Listed s') handle_message-Listed ms s w d),
        run-packets s ms w,
      )

  handle_message-close_events :
      (s : Server P) (m : ServerMessage P) (w : World tokio)
      → close_events (packets (handle_message s m w).1.history) ≡ close_events (packets w.history)
  unfolding handle_message
  handle_message-close_events s
        (ServerMessage.connection_event from ConnectionTypes.ConnectionEvent.close) w =
      refl
  handle_message-close_events s
        (ServerMessage.connection_event from (ConnectionTypes.ConnectionEvent.event_message e)) w =
      refl
  handle_message-close_events s
        (ServerMessage.connection_event from (ConnectionTypes.ConnectionEvent.request_message r))
        w =
      refl
  handle_message-close_events s _ w = ground arith

  -- The server's task never sends its user `ServerEvent::Close`, whatever it is sent.
  pub run-close_events :
      (s : Server P) (ms : List (ServerMessage P)) (w : World tokio)
      → close_events (packets (run s ms w).1.history) ≡ close_events (packets w.history)
  run-close_events s ms w =
      let (p, w') = serve s ms w in
      ap close_events (run-packets s ms w)
      ∙ close_events-farewells (tokio.traverse p.state.connections w'.env).0 (packets w'.history)
      ∙ serve_keeps (λ _ w''. close_events (packets w''.history) ≡ close_events (packets w.history))
          (λ s' m w'' h. handle_message-close_events s' m w'' ∙ h) ms s w refl
