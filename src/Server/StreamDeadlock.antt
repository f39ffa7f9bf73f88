-- ===== src/Server/StreamDeadlock.antt =====
-- src/server.rs, src/server/listener.rs and src/server/acceptor.rs: how a server, its listener and
-- its acceptor come to wait for each other.
use rrev.Prelude.{◌≡◌, refl, some, [], Result}
use rrev.Channel.{OneshotSender, TcpStream, SocketAddr, IoError}
use rrev.Scheme.{Parser}
use rrev.Error.{ListenAddrError}
use rrev.Connection.Types.{Connection, ConnectionHdl}
use rrev.Server.Types.{Server, ServerMessage, ListenerMessage, AcceptorMessage}
use rrev.Server.Waiting.{Net, ServerAt, AcceptorAt, ListenerAt, pause}
use rrev.Server.Steps as Steps
use rrev.Server.Steps.{Step, Steps, rest, more}
use rrev.Server.Stall.{Stalled, Steps-closing}
use rrev.Server.Silence.{Unanswered, Steps-Unanswered}
use rrev.Server.Deadlock.{quiet, some≢none}

module _ {P : Parser} (s : Server P) (c : Connection P) (here hdl : ConnectionHdl P)
    (peer from : SocketAddr) (stream : TcpStream) (m : ServerMessage P) where
  -- The acceptor has a connection for the server, and a second stream waits in its channel.
  abbrev pub crowded : ServerAt P → ListenerAt → Net P
  crowded v l = record (quiet s c) {
    server = v;
    acceptor = AcceptorAt.announcing hdl from;
    listener = l;
    for_server = some m;
    for_acceptor = some (AcceptorMessage.new_stream stream from);
  }

  crowded-Stalled : (v : ServerAt P) (l : ListenerAt) → Stalled v hdl from (crowded v l)
  crowded-Stalled v l = record {
    waits = refl;
    announcing = refl;
    server_full = some≢none _;
    acceptor_full = some≢none _;
  }

  -- What the user has asked the listener through the server, and `to` for its answer.
  abbrev pub silent :
      OneshotSender (Result SocketAddr ListenAddrError)
      → OneshotSender (Result SocketAddr IoError)
      → Net P
  silent tx to = record (crowded (ServerAt.awaiting s tx) (ListenerAt.forwarding stream from)) {
    for_listener = some (ListenerMessage.get_address to);
  }

  way_to_silent :
      (tx : OneshotSender (Result SocketAddr ListenAddrError))
      (to : OneshotSender (Result SocketAddr IoError))
      → Steps here peer (quiet s c) (silent tx to)
  unfolding pause
  way_to_silent tx to =
      let w0 : Steps here peer (quiet s c) (quiet s c) = rest in
      let w1 = more w0 (Steps.listener (Steps.accepts stream from refl)) in
      let w2 = more w1 (Steps.listener (Steps.forwards stream from refl refl)) in
      let w3 = more w2 (Steps.acceptor (Steps.takes_stream stream from refl refl)) in
      let w4 = more w3 (Steps.acceptor (Steps.handshake (Steps.upgrades stream from hdl refl))) in
      let w5 = more w4 (Steps.calls (ServerMessage.get_listen_address tx) refl) in
      let w6 = more w5 (Steps.server (Steps.takes s _ refl refl)) in
      let w7 = more w6 (Steps.server (Steps.asks s tx to refl refl)) in
      let w8 = more w7 (Steps.listener (Steps.accepts stream from refl)) in
      let w9 = more w8 (Steps.listener (Steps.forwards stream from refl refl)) in
      let w10 = more w9 (Steps.listener (Steps.accepts stream from refl)) in
      more w10 (Steps.calls m refl)

  -- If streams come while the user asks for the listen address, the tasks of a server can come from
  -- the start to where the server waits for the answer of the listener, the listener to hand a
  -- stream to the acceptor, and the acceptor to tell the server of a connection; and wherever the
  -- tasks, the user and the peers go from there, the three still wait.
  pub address_deadlock :
      (tx : OneshotSender (Result SocketAddr ListenAddrError))
      (to : OneshotSender (Result SocketAddr IoError)) (o : Net P)
      → Steps here peer (silent tx to) o
      → Steps here peer (quiet s c) (silent tx to) × Unanswered s tx hdl from stream from o
  address_deadlock tx to o ss = (
    way_to_silent tx to,
    Steps-Unanswered ss (record {
      stalled = record {
        waits = refl;
        announcing = refl;
        server_full = some≢none _;
        acceptor_full = some≢none _;
      };
      forwarding = refl;
      no_answer = refl;
    }),
  )

  way_to_closing :
      s.connections ≡ []
      → Steps here peer (quiet s c) (crowded (ServerAt.closing_acceptor s) ListenerAt.selecting)
  unfolding pause
  way_to_closing none_left =
      let w0 : Steps here peer (quiet s c) (quiet s c) = rest in
      let w1 = more w0 (Steps.listener (Steps.accepts stream from refl)) in
      let w2 = more w1 (Steps.listener (Steps.forwards stream from refl refl)) in
      let w3 = more w2 (Steps.acceptor (Steps.takes_stream stream from refl refl)) in
      let w4 = more w3 (Steps.acceptor (Steps.handshake (Steps.upgrades stream from hdl refl))) in
      let w5 = more w4 (Steps.listener (Steps.accepts stream from refl)) in
      let w6 = more w5 (Steps.listener (Steps.forwards stream from refl refl)) in
      let w7 = more w6 (Steps.calls ServerMessage.close refl) in
      let w8 = more w7 (Steps.server (Steps.takes s _ refl refl)) in
      let w9 = more w8 (Steps.calls m refl) in
      let w10 = more w9 (
        Steps.server
          (Steps.lists s [] refl (record { distinct = tt; agree = λ k. rw none_left refl }))) in
      more w10 (Steps.server (Steps.all_closed s refl))

  -- If streams come while the user closes a server that has no connections yet, its tasks can come
  -- from the start to where the server waits to tell the acceptor to close, and the acceptor to tell
  -- the server of a connection; and wherever the tasks, the user and the peers go from there, both
  -- still wait.
  pub close_deadlock :
      (o : Net P)
      → s.connections ≡ []
      → Steps here peer (crowded (ServerAt.closing_acceptor s) ListenerAt.selecting) o
      → Steps here peer (quiet s c) (crowded (ServerAt.closing_acceptor s) ListenerAt.selecting)
        × Stalled (ServerAt.closing_acceptor s) hdl from o
  close_deadlock o none_left ss = (
    way_to_closing none_left,
    Steps-closing ss (crowded-Stalled (ServerAt.closing_acceptor s) ListenerAt.selecting),
  )
