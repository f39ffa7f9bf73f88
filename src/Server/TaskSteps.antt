-- ===== src/Server/TaskSteps.antt =====
-- src/server/acceptor.rs, src/server/listener.rs and src/server/connection_passer.rs: the steps of the
-- tasks around the server's own.
use rrev.Prelude.{◌≡◌, none, some, Result}
use rrev.Channel.{OneshotSender, TcpStream, SocketAddr, IoError}
use rrev.Scheme.{Parser}
use rrev.Connection.Types.{Connection, ConnectionHdl, ConnectionMessage}
use rrev.Connection.Types as ConnectionTypes
use rrev.Connection.Waiting.{Tasks, ConnectionAt, Work, Answer}
use rrev.Server.Types.{ServerMessage, AcceptorMessage, ListenerMessage}
use rrev.Server.Waiting.{Net, ServerAt, AcceptorAt, ListenerAt, PasserAt}

module _ {P : Parser} where
  -- The handshake of an upgrade ends, which needs the peer: with a new connection, or with an error.
  pub data Handshake (n : Net P) : Net P → Type 0 where
    upgrades :
        (stream : TcpStream) (addr : SocketAddr) (hdl : ConnectionHdl P)
        → n.acceptor ≡ AcceptorAt.upgrading stream addr
        → Handshake n (record n { acceptor = AcceptorAt.announcing hdl addr })
    upgrade_fails :
        (stream : TcpStream) (addr : SocketAddr)
        → n.acceptor ≡ AcceptorAt.upgrading stream addr
        → Handshake n (record n { acceptor = AcceptorAt.receiving })

  -- A step of the acceptor's task, or the end of the handshake that it waits for.
  pub data AcceptorStep (n : Net P) : Net P → Type 0 where
    takes_stream :
        (stream : TcpStream) (addr : SocketAddr)
        → n.acceptor ≡ AcceptorAt.receiving
        → n.for_acceptor ≡ some (AcceptorMessage.new_stream stream addr)
        → AcceptorStep n
            (record n { acceptor = AcceptorAt.upgrading stream addr; for_acceptor = none })
    handshake : {o : Net P} → Handshake n o → AcceptorStep n o
    announces :
        (hdl : ConnectionHdl P) (addr : SocketAddr)
        → n.acceptor ≡ AcceptorAt.announcing hdl addr
        → n.for_server ≡ none
        → AcceptorStep n (record n {
          acceptor = AcceptorAt.receiving;
          for_server = some (ServerMessage.new_connection hdl addr);
        })
    announce_fails :
        (hdl : ConnectionHdl P) (addr : SocketAddr)
        → n.acceptor ≡ AcceptorAt.announcing hdl addr
        → n.server ≡ ServerAt.ended
        → AcceptorStep n (record n { acceptor = AcceptorAt.ended })
    acceptor_left :
        n.acceptor ≡ AcceptorAt.receiving
        → n.for_acceptor ≡ none
        → n.server ≡ ServerAt.ended
        → n.listener ≡ ListenerAt.ended
        → AcceptorStep n (record n { acceptor = AcceptorAt.ended })
    acceptor_closes :
        n.acceptor ≡ AcceptorAt.receiving
        → n.for_acceptor ≡ some AcceptorMessage.close
        → AcceptorStep n (record n { acceptor = AcceptorAt.ended; for_acceptor = none })

  pub data ListenerStep (n : Net P) : Net P → Type 0 where
    accepts :
        (stream : TcpStream) (addr : SocketAddr)
        → n.listener ≡ ListenerAt.selecting
        → ListenerStep n (record n { listener = ListenerAt.forwarding stream addr })
    forwards :
        (stream : TcpStream) (addr : SocketAddr)
        → n.listener ≡ ListenerAt.forwarding stream addr
        → n.for_acceptor ≡ none
        → ListenerStep n (record n {
          listener = ListenerAt.selecting;
          for_acceptor = some (AcceptorMessage.new_stream stream addr);
        })
    forward_fails :
        (stream : TcpStream) (addr : SocketAddr)
        → n.listener ≡ ListenerAt.forwarding stream addr
        → n.acceptor ≡ AcceptorAt.ended
        → ListenerStep n (record n { listener = ListenerAt.ended })
    answers :
        (to : OneshotSender (Result SocketAddr IoError)) (r : Result SocketAddr IoError)
        → n.listener ≡ ListenerAt.selecting
        → n.for_listener ≡ some (ListenerMessage.get_address to)
        → ListenerStep n (record n { for_listener = none; local = some r })
    listener_left :
        n.listener ≡ ListenerAt.selecting
        → n.for_listener ≡ none
        → n.server ≡ ServerAt.ended
        → ListenerStep n (record n { listener = ListenerAt.ended })
    listener_closes :
        n.listener ≡ ListenerAt.selecting
        → n.for_listener ≡ some ListenerMessage.close
        → ListenerStep n (record n { listener = ListenerAt.ended; for_listener = none })

-- The passer and the tasks of one connection, whose peer is at `peer`, with its websocket.
module _ {P : Parser} (peer : SocketAddr) where
  pub data LinkStep (n : Net P) : Net P → Type 0 where
    passer_takes :
        (e : ConnectionTypes.ConnectionEvent P)
        → n.passer ≡ PasserAt.receiving
        → n.tasks.owner ≡ some e
        → LinkStep n
            (record n { passer = PasserAt.passing e; tasks = record n.tasks { owner = none } })
    passes :
        (e : ConnectionTypes.ConnectionEvent P)
        → n.passer ≡ PasserAt.passing e
        → n.for_server ≡ none
        → LinkStep n (record n {
          passer = PasserAt.receiving;
          for_server = some (ServerMessage.connection_event peer e);
        })
    pass_fails :
        (e : ConnectionTypes.ConnectionEvent P)
        → n.passer ≡ PasserAt.passing e
        → n.server ≡ ServerAt.ended
        → LinkStep n (record n { passer = PasserAt.ended })
    passer_ends :
        n.passer ≡ PasserAt.receiving
        → n.tasks.owner ≡ none
        → n.tasks.connection ≡ ConnectionAt.ended
        → LinkStep n (record n { passer = PasserAt.ended })
    works : (t : Tasks P) → Work n.tasks t → LinkStep n (record n { tasks = t })
    websocket : (t : Tasks P) → Answer n.tasks t → LinkStep n (record n { tasks = t })
    tell_lost :
        (c : Connection P) (e : ConnectionTypes.ConnectionEvent P)
        → n.tasks.connection ≡ ConnectionAt.telling c e
        → n.passer ≡ PasserAt.ended
        → LinkStep n
            (record n { tasks = record n.tasks { connection = ConnectionAt.closing_receiver c } })
    end_lost :
        (c : Connection P)
        → n.tasks.connection ≡ ConnectionAt.telling_end c
        → n.passer ≡ PasserAt.ended
        → LinkStep n (record n { tasks = record n.tasks { connection = ConnectionAt.ended } })
