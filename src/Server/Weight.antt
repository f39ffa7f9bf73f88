-- ===== src/Server/Weight.antt =====
-- src/server.rs, src/server/acceptor.rs, src/server/listener.rs and src/server/connection_passer.rs: what
-- the tasks of a server have left to do, as a number.
use rrev.Prelude.{ℕ, ◌+◌, ◌*◌, ◌≤◌, ◌<◌, Option, none, some, [], arith, length}
use rrev.Prelude.Map.{Map, length-erase, length-insert}
use rrev.Channel.{SocketAddr, SocketAddr-discrete}
use rrev.Scheme.{Parser}
use rrev.Connection.Types.{ConnectionHdl, ConnectionEvent}
use rrev.Connection.Settling.{weight, held_weight}
use rrev.Server.Types.{Server, ServerMessage, AcceptorMessage}
use rrev.Server.Waiting.{Net, ServerAt, AcceptorAt, ListenerAt, PasserAt, pause, dropping}

abbrev pub listener_weight : ListenerAt → ℕ
listener_weight ListenerAt.selecting = 1
listener_weight (ListenerAt.forwarding _ _) = 43
listener_weight ListenerAt.ended = 0

abbrev pub stream_weight : Option AcceptorMessage → ℕ
stream_weight none = 0
stream_weight (some AcceptorMessage.close) = 1
stream_weight (some (AcceptorMessage.new_stream _ _)) = 41

pub listener_weight-le : (a : ListenerAt) → listener_weight a ≤ 43
listener_weight-le a = ground arith

pub stream_weight-le : (a : Option AcceptorMessage) → stream_weight a ≤ 41
stream_weight-le a = ground arith

module _ {P : Parser} where
  -- The connections that the server may still have to close.
  abbrev pub kept_by : ServerAt P → Map SocketAddr (ConnectionHdl P)
  kept_by (ServerAt.receiving s) = s.connections
  kept_by (ServerAt.sending s _ _ _) = s.connections
  kept_by (ServerAt.telling s _ _) = s.connections
  kept_by (ServerAt.asking s _) = s.connections
  kept_by (ServerAt.awaiting s _) = s.connections
  kept_by (ServerAt.leaving s) = s.connections
  kept_by (ServerAt.closing _ left) = left
  kept_by _ = []

  abbrev pub place_weight : ServerAt P → ℕ
  place_weight (ServerAt.receiving _) = 10
  place_weight (ServerAt.sending _ _ _ _) = 46
  place_weight (ServerAt.telling _ _ _) = 11
  place_weight (ServerAt.asking _ _) = 14
  place_weight (ServerAt.awaiting _ _) = 11
  place_weight (ServerAt.leaving _) = 9
  place_weight (ServerAt.closing _ _) = 8
  place_weight (ServerAt.closing_acceptor _) = 7
  place_weight (ServerAt.closing_listener _) = 5
  place_weight ServerAt.ended = 0

  abbrev pub server_weight : ServerAt P → ℕ
  server_weight v = 36 * length (kept_by v) + place_weight v

  abbrev pub message_weight : ServerMessage P → ℕ
  message_weight (ServerMessage.new_connection _ _) = 38
  message_weight (ServerMessage.connection_event _ _) = 2
  message_weight (ServerMessage.send_request _ _ _) = 37
  message_weight (ServerMessage.send_event _ _) = 37
  message_weight (ServerMessage.get_listen_address _) = 5
  message_weight _ = 1

  abbrev pub call_weight : Option (ServerMessage P) → ℕ
  call_weight none = 0
  call_weight (some m) = message_weight m

  abbrev pub acceptor_weight : AcceptorAt P → ℕ
  acceptor_weight AcceptorAt.receiving = 1
  acceptor_weight (AcceptorAt.upgrading _ _) = 41
  acceptor_weight (AcceptorAt.announcing _ _) = 40
  acceptor_weight AcceptorAt.ended = 0

  abbrev pub passer_weight : PasserAt P → ℕ
  passer_weight PasserAt.receiving = 1
  passer_weight (PasserAt.passing _) = 4
  passer_weight PasserAt.ended = 0

  pub place_weight-le : (v : ServerAt P) → place_weight v ≤ 46
  place_weight-le v = ground arith

  pub call_weight-le : (x : Option (ServerMessage P)) → call_weight x ≤ 38
  call_weight-le x = ground arith

  pub acceptor_weight-le : (a : AcceptorAt P) → acceptor_weight a ≤ 41
  acceptor_weight-le a = ground arith

  pub passer_weight-le : (a : PasserAt P) → passer_weight a ≤ 4
  passer_weight-le a = ground arith

  -- What is left to do, as in Connection/Settling.
  abbrev pub net_weight : Net P → ℕ
  net_weight n =
      server_weight n.server
      + acceptor_weight n.acceptor
      + listener_weight n.listener
      + passer_weight n.passer
      + 5 * weight n.tasks
      + held_weight 4 n.tasks.owner
      + call_weight n.for_server
      + stream_weight n.for_acceptor
      + held_weight 2 n.for_listener

  -- A message is worth more than what its handler waits for.
  pub pause-weight :
      (s : Server P) (m : ServerMessage P)
      → server_weight (pause s m) < server_weight (ServerAt.receiving s) + message_weight m
  unfolding pause
  pause-weight s ServerMessage.close = omega arith
  pause-weight s (ServerMessage.get_listen_address tx) = omega arith
  pause-weight s (ServerMessage.get_clients tx) = omega arith
  pause-weight s (ServerMessage.new_connection connection addr) =
      ground (arith, length-insert SocketAddr-discrete addr connection s.connections)
  pause-weight s (ServerMessage.connection_event from ConnectionEvent.close) =
      omega (arith, length-erase SocketAddr-discrete from s.connections)
  pause-weight s (ServerMessage.connection_event from (ConnectionEvent.event_message e)) =
      omega arith
  pause-weight s (ServerMessage.connection_event from (ConnectionEvent.request_message r)) =
      omega arith
  pause-weight s (ServerMessage.send_request to tx q) = ground arith
  pause-weight s (ServerMessage.send_event to e) = ground arith

  pub dropping-weight :
      (s : Server P) (to : SocketAddr)
      → server_weight (ServerAt.receiving (dropping s to)) ≤ server_weight (ServerAt.receiving s)
  unfolding dropping
  dropping-weight s to = omega (arith, length-erase SocketAddr-discrete to s.connections)
