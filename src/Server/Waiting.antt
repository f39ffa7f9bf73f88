-- ===== src/Server/Waiting.antt =====
-- src/server.rs, src/server/acceptor.rs, src/server/listener.rs and src/server/connection_passer.rs:
-- the tasks of a server with those of one connection. Their channels hold one message, and a send
-- waits while one is there.
use rrev.Prelude.{Option, none, some, Result, ControlFlow, go_on, stop, if◌then◌else◌}
use rrev.Prelude.Map.{Map, get, is_some, insert, remove}
use rrev.Channel.{OneshotSender, TcpStream, SocketAddr, SocketAddr-discrete, IoError}
use rrev.Scheme.{Parser}
use rrev.Error.{ListenAddrError}
use rrev.Connection.Types.{ConnectionHdl, ConnectionMessage}
use rrev.Connection.Types as ConnectionTypes
use rrev.Connection.Waiting.{Tasks}
use rrev.Server.Types.{Server, ServerMessage, ServerEvent, AcceptorMessage, ListenerMessage}

-- Where the server's task waits: at `recv`; at a send to a connection, to the user or to the
-- listener; for the answer of the listener; and at one of the sends that follow its loop.
pub data ServerAt (P : Parser) : Type 0 where
  receiving : Server P → ServerAt P
  sending : Server P → SocketAddr → ConnectionHdl P → ConnectionMessage P → ServerAt P
  -- With what follows if the user is gone.
  telling : Server P → ServerEvent P → ControlFlow → ServerAt P
  asking awaiting : Server P → OneshotSender (Result SocketAddr ListenAddrError) → ServerAt P
  leaving : Server P → ServerAt P
  -- With the connections that are not told yet.
  closing : Server P → Map SocketAddr (ConnectionHdl P) → ServerAt P
  closing_acceptor closing_listener : Server P → ServerAt P
  ended : ServerAt P

-- Where the acceptor's task waits: at `recv`, at the upgrade of a stream, or at the news to the
-- server.
pub data AcceptorAt (P : Parser) : Type 0 where
  receiving : AcceptorAt P
  upgrading : TcpStream → SocketAddr → AcceptorAt P
  announcing : ConnectionHdl P → SocketAddr → AcceptorAt P
  ended : AcceptorAt P

-- Where the listener's task waits: at `select!`, or at a send to the acceptor.
pub data ListenerAt : Type 0 where
  selecting : ListenerAt
  forwarding : TcpStream → SocketAddr → ListenerAt
  ended : ListenerAt

-- Where a passer waits: at `recv`, or at a send to the server.
pub data PasserAt (P : Parser) : Type 0 where
  receiving : PasserAt P
  passing : ConnectionTypes.ConnectionEvent P → PasserAt P
  ended : PasserAt P

-- The tasks and the channels. The `owner` of the connection's tasks is the passer, and their `user`
-- is the server.
pub record Net (P : Parser) : Type 0 where
  pub server : ServerAt P
  pub acceptor : AcceptorAt P
  pub listener : ListenerAt
  pub passer : PasserAt P
  pub tasks : Tasks P
  pub for_server : Option (ServerMessage P)
  pub for_user : Option (ServerEvent P)
  pub for_acceptor : Option AcceptorMessage
  pub for_listener : Option ListenerMessage
  -- What the listener has put on the oneshot of a query.
  pub local : Option (Result SocketAddr IoError)

module _ {P : Parser} where
  -- Where the handler of a message first waits, or `recv` if it does not.
  unfoldable pub pause : Server P → ServerMessage P → ServerAt P
  unfolding insert remove
  pause s ServerMessage.close = ServerAt.leaving s
  pause s (ServerMessage.get_listen_address tx) = ServerAt.asking s tx
  pause s (ServerMessage.get_clients tx) = ServerAt.receiving s
  pause s (ServerMessage.new_connection connection addr) =
      if is_some (get SocketAddr-discrete addr s.connections)
      then ServerAt.receiving s
      else ServerAt.telling
          (record s { connections = insert SocketAddr-discrete addr connection s.connections })
          (ServerEvent.new_connection addr) go_on
  pause s (ServerMessage.connection_event from ConnectionTypes.ConnectionEvent.close) =
      ServerAt.telling
        (record s { connections = (remove SocketAddr-discrete from s.connections).1 })
        (ServerEvent.connection_close from) stop
  pause s (ServerMessage.connection_event from (ConnectionTypes.ConnectionEvent.event_message e)) =
      ServerAt.telling s (ServerEvent.connection_event (record { from = from; event = e })) stop
  pause s
        (ServerMessage.connection_event from (ConnectionTypes.ConnectionEvent.request_message r)) =
      ServerAt.telling s (ServerEvent.connection_request (record { from = from; request = r })) stop
  pause s (ServerMessage.send_request to tx q) = elim (get SocketAddr-discrete to s.connections) [
    | some hdl ↦ ServerAt.sending s to hdl (ConnectionMessage.request q tx)
    | none ↦ ServerAt.receiving s
  ]
  pause s (ServerMessage.send_event to e) = elim (get SocketAddr-discrete to s.connections) [
    | some hdl ↦ ServerAt.sending s to hdl (ConnectionMessage.event e)
    | none ↦ ServerAt.receiving s
  ]

  -- The server without a connection that could not be reached.
  unfoldable pub dropping : Server P → SocketAddr → Server P
  unfolding remove
  dropping s to = record s { connections = (remove SocketAddr-discrete to s.connections).1 }

  -- Where the server waits after a message to the user that could not be sent.
  abbrev pub untold : Server P → ControlFlow → ServerAt P
  untold s go_on = ServerAt.receiving s
  untold s stop = ServerAt.leaving s
