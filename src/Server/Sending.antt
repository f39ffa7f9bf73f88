-- ===== src/Server/Sending.antt =====
-- src/server.rs with src/connection.rs and src/connection/sender.rs: what goes from the user of the
-- server to a connection, and on to the websocket.
use mathlib.Core.List.{append-nil, append_assoc, Sublist, nil-sublist}
use mathlib.Core.List.Sublist as Sub
use rrev.Prelude.{
  ◌≡◌, refl, sym, ap, ◌∙◌, inl, inr, some, List, [], ◌∷◌, ◌++◌, arith, ite, if_pos, if_neg, map,
  push_all, ControlFlow-cases, Option-cases,
}
use rrev.Prelude.Map.{Map, get}
use rrev.Prelude.Prefix.{Prefix, flat, said}
use rrev.Channel.{SocketAddr, SocketAddr-discrete}
use rrev.Scheme.{Parser, OurMessage}
use rrev.Runtime.{Tokio, World, Wire, Packet, Entry, to_connection, packets}
use rrev.Connection.Types.{
  ConnectionHdl-discrete, Connection, ConnectionHdl, ConnectionMessage, ConnectionEvent, Sender,
  SenderMessage,
}
use rrev.Connection.{Turn}
use rrev.Connection as Connections
use rrev.Connection.Sender as Writer
use rrev.Connection.Writing.{texts, serialized, run-texts}
use rrev.Connection.Sending.{
  Call, calls, turn_calls, out_calls, sent_sender, SaidMore, SaidMore-trans, run_sends,
}
use rrev.Connection.Sending.{
  message_calls, before_close, before_close-calls, before_close-serialized,
}
use rrev.Prelude.Prefix.{Prefix-sublist}
use rrev.Server.Types.{Server, ServerMessage}
use rrev.Server.{handle_message, serve, run}
use rrev.Server.Registry.{serve-go_on, serve-stop}
use rrev.Server.Shutdown.{farewells, run-packets}
use rrev.Server.OneAddress.{Only, AllNamed, handle_message-Only}

ite-same : {X A : Type 0} (d : Dec X) (a : A) → ite d a a ≡ a
ite-same (yes p) a = refl
ite-same (no p) a = refl

module _ {P : Parser} where
  -- The calls to an address in a message to the server.
  abbrev pub calls_to : SocketAddr → ServerMessage P → List (Call P)
  calls_to addr (ServerMessage.send_request to tx q) =
      ite (SocketAddr-discrete to addr) (inl q ∷ []) []
  calls_to addr (ServerMessage.send_event to e) = ite (SocketAddr-discrete to addr) (inr e ∷ []) []
  calls_to addr _ = []

  -- The calls in a packet to the connection of a handle.
  abbrev pub sent_to : ConnectionHdl P → Packet P → List (Call P)
  sent_to hdl (to_connection tx m) =
      ite (ConnectionHdl-discrete (record { tx = tx }) hdl) (calls m) []
  sent_to hdl _ = []

  farewells-said :
      (hdl : ConnectionHdl P) (m : Map SocketAddr (ConnectionHdl P)) (ps : List (Packet P))
      → said (sent_to hdl) (farewells m ++ ps) ≡ said (sent_to hdl) ps
  farewells-said hdl [] ps = refl
  farewells-said hdl ((a, h) ∷ m) ps =
      rw (append_assoc (farewells m) (to_connection h.tx ConnectionMessage.close ∷ []) ps) (
        farewells-said hdl m (to_connection h.tx ConnectionMessage.close ∷ ps)
        ∙ ap (λ l. said (sent_to hdl) ps ++ l) (ite-same _ [])
        ∙ append-nil (said (sent_to hdl) ps))

module _ {P : Parser} (addr : SocketAddr) (hdl : ConnectionHdl P) where
  -- A call that goes to one connection, and is for one address.
  call_goes :
      (to : SocketAddr) (h : ConnectionHdl P) (x : List (Call P))
      → (h ≡ hdl → to ≡ addr)
      → Sublist (ite (ConnectionHdl-discrete h hdl) x []) (ite (SocketAddr-discrete to addr) x [])
  call_goes to h x only = elim (ConnectionHdl-discrete h hdl) [
    | yes p ↦
        rw (if_pos (ConnectionHdl-discrete h hdl) p, if_pos (SocketAddr-discrete to addr) (only p))
          (Sub.refl _)
    | no p ↦ rw (if_neg (ConnectionHdl-discrete h hdl) p) (nil-sublist _)
  ]

module _ {P : Parser} {tokio : Tokio P} (addr : SocketAddr) (hdl : ConnectionHdl P) where
  handle_message_sends :
      (s : Server P) (m : ServerMessage P) (w : World tokio)
      → Only addr hdl s
      → SaidMore
          (sent_to hdl)
          (packets w.history)
          (packets (handle_message s m w).1.history)
          (calls_to addr m)
  unfolding handle_message
  handle_message_sends s (ServerMessage.send_request to tx q) w o =
      elim (Option-cases (get SocketAddr-discrete to s.connections)) [
        | inl e ↦
            ([], ground (arith, append-nil (said (sent_to hdl) (packets w.history))), nil-sublist _)
        | inr (h, e) ↦
            (_, ground (arith, e), call_goes addr hdl to h (inl q ∷ []) (λ p. o to (e ∙ ap some p)))
      ]
  handle_message_sends s (ServerMessage.send_event to x) w o =
      elim (Option-cases (get SocketAddr-discrete to s.connections)) [
        | inl e ↦
            ([], ground (arith, append-nil (said (sent_to hdl) (packets w.history))), nil-sublist _)
        | inr (h, e) ↦
            (_, ground (arith, e), call_goes addr hdl to h (inr x ∷ []) (λ p. o to (e ∙ ap some p)))
      ]
  handle_message_sends s (ServerMessage.connection_event from ConnectionEvent.close) w o =
      ([], refl, nil-sublist _)
  handle_message_sends s (ServerMessage.connection_event from (ConnectionEvent.event_message e)) w
        o =
      ([], refl, nil-sublist _)
  handle_message_sends s (ServerMessage.connection_event from (ConnectionEvent.request_message r)) w
        o =
      ([], refl, nil-sublist _)
  handle_message_sends s m w o =
      ([], ground (arith, append-nil (said (sent_to hdl) (packets w.history))), nil-sublist _)

  serve_sends :
      (ms : List (ServerMessage P)) (s : Server P) (w : World tokio)
      → Only addr hdl s
      → AllNamed addr hdl ms
      → SaidMore
          (sent_to hdl)
          (packets w.history)
          (packets (serve s ms w).1.history)
          (flat (calls_to addr) ms)
  serve_sends [] s w o n = unfold serve in ([], sym (append-nil _), Sub.refl _)
  serve_sends (m ∷ ms) s w o (n, ns) =
      let s' : Server P = (handle_message s m w).0.0 in
      let w' : World tokio = (handle_message s m w).1 in
      let one = handle_message_sends s m w o in
      elim (ControlFlow-cases (handle_message s m w).0.1) [
        | inl e ↦ rw (serve-go_on s m ms w e) (
            SaidMore-trans (sent_to hdl) (packets w.history) (packets w'.history)
              (packets (serve s' ms w').1.history) _ _ one
              (serve_sends ms s' w' (handle_message-Only addr hdl s m w n o) ns))
        | inr e ↦ rw (serve-stop s m ms w e) (
            SaidMore-trans (sent_to hdl) (packets w.history) (packets w'.history)
              (packets w'.history) _ _ one ([], sym (append-nil _), nil-sublist _))
      ]

  -- The connection is sent a sublist of the calls to the address.
  server_sends :
      (s : Server P) (ms : List (ServerMessage P)) (w : World tokio)
      → Only addr hdl s
      → AllNamed addr hdl ms
      → w.history ≡ []
      → Sublist (said (sent_to hdl) (packets (run s ms w).1.history)) (flat (calls_to addr) ms)
  server_sends s ms w o n fresh =
      let (p, w') = serve s ms w in
      let (xs, all, sub) = serve_sends ms s w o n in
      let entries = (tokio.traverse p.state.connections w'.env).0 in
      let start : said (sent_to hdl) (packets w.history) ++ xs ≡ xs =
        ap (λ (h : List (Entry P)). said (sent_to hdl) (packets h) ++ xs) fresh in
      let said_all : said (sent_to hdl) (packets (run s ms w).1.history) ≡ xs =
        ap (said (sent_to hdl)) (run-packets s ms w)
        ∙ append-nil _
        ∙ append-nil _
        ∙ farewells-said hdl entries (packets w'.history)
        ∙ all
        ∙ start in
      rw said_all sub

module _ {P : Parser} {tokio : Tokio P} where
  -- The texts that a sender writes to its websocket are those of messages in which the requests and
  -- events are a sublist of those that the user of the server asked for to the address of the
  -- connection, in their order and each at most once, wherever tasks fail or end, and whatever else
  -- comes between: if each channel brings a prefix of what was sent over it, where the replies that
  -- users complete come between, and the handle of the connection stands under its address only.
  pub written-Sublist :
      (wire : Wire P) (s : Server P) (ms : List (ServerMessage P)) (addr : SocketAddr)
      (hdl : ConnectionHdl P) (c : Connection P) (ts : List (Turn P)) (x : Sender P)
      (ss : List (SenderMessage P)) (w1 w2 w3 : World tokio)
      → w1.history ≡ []
      → w2.history ≡ []
      → w3.history ≡ []
      → Only addr hdl s
      → AllNamed addr hdl ms
      → Prefix (flat turn_calls ts) (said (sent_to hdl) (packets (run s ms w1).1.history))
      → Prefix
          (flat message_calls ss)
          (said sent_sender (packets (Connections.run c ts w2).1.history))
      → (out : List (OurMessage P)) × (texts (Writer.run wire x ss w3).1.history
          ≡ push_all (serialized wire (map SenderMessage.message out)) [])
        × Sublist (flat out_calls out) (flat (calls_to addr) ms)
  written-Sublist wire s ms addr hdl c ts x ss w1 w2 w3 f1 f2 f3 only named taken given =
      let (written, _, _) = run-texts wire x ss w3 in
      (
        before_close ss,
        written
            ∙ ap (λ (h : List (Entry P)). push_all (serialized wire ss) (texts h)) f3
            ∙ ap (λ l. push_all l []) (before_close-serialized wire ss),
        Sub.trans (before_close-calls ss) (
            Sub.trans (Prefix-sublist given) (
              Sub.trans (run_sends c ts w2 f2)
                (Sub.trans (Prefix-sublist taken) (server_sends addr hdl s ms w1 only named f1)))),
      )
