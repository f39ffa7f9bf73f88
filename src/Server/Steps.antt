-- ===== src/Server/Steps.antt =====
-- src/server.rs: the steps of the server's task, and those of all the tasks of Waiting.
use rrev.Prelude.{◌≡◌, ◌≢◌, none, some, [], ◌∷◌, Result, ControlFlow}
use rrev.Prelude.Map.{Map, SameEntries}
use rrev.Channel.{OneshotSender, SocketAddr, SocketAddr-discrete, IoError}
use rrev.Scheme.{Parser, OurMessage}
use rrev.Error.{ListenAddrError}
use rrev.Connection.Types.{Connection, ConnectionHdl, ConnectionMessage}
use rrev.Connection.Types as ConnectionTypes
use rrev.Connection.Waiting.{ConnectionAt, ReceiverAt}
use rrev.Server.Types.{Server, ServerMessage, ServerEvent, AcceptorMessage, ListenerMessage}
use rrev.Server.Waiting.{Net, ServerAt, AcceptorAt, ListenerAt, PasserAt, pause, dropping, untold}
pub use rrev.Server.TaskSteps.{
  Handshake, AcceptorStep, ListenerStep, LinkStep, takes_stream, handshake, websocket, upgrades,
  upgrade_fails, announces, announce_fails, acceptor_left, acceptor_closes, accepts, forwards,
  forward_fails, answers, listener_left, listener_closes, passer_takes, passes, pass_fails,
  passer_ends, works, tell_lost, end_lost,
}

-- `here` is the handle of the connection whose tasks are in the net. A send to another connection
-- ends some time, with success or not.
module _ {P : Parser} (here : ConnectionHdl P) where
  pub data ServerStep (n : Net P) : Net P → Type 0 where
    takes :
        (s : Server P) (m : ServerMessage P)
        → n.server ≡ ServerAt.receiving s
        → n.for_server ≡ some m
        → ServerStep n (record n { server = pause s m; for_server = none })
    -- `recv` gives `None` if all senders are gone; the acceptor and the passer hold one each.
    all_left :
        (s : Server P)
        → n.server ≡ ServerAt.receiving s
        → n.for_server ≡ none
        → n.acceptor ≡ AcceptorAt.ended
        → n.passer ≡ PasserAt.ended
        → ServerStep n (record n { server = ServerAt.leaving s })
    delivers :
        (s : Server P) (to : SocketAddr) (m : ConnectionMessage P)
        → n.server ≡ ServerAt.sending s to here m
        → n.tasks.user ≡ none
        → ServerStep n
            (record n { server = ServerAt.receiving s; tasks = record n.tasks { user = some m } })
    deliver_fails :
        (s : Server P) (to : SocketAddr) (m : ConnectionMessage P)
        → n.server ≡ ServerAt.sending s to here m
        → n.tasks.connection ≡ ConnectionAt.ended
        → ServerStep n (record n { server = ServerAt.receiving (dropping s to) })
    delivers_elsewhere :
        (s : Server P) (to : SocketAddr) (hdl : ConnectionHdl P) (m : ConnectionMessage P)
        → n.server ≡ ServerAt.sending s to hdl m
        → hdl ≢ here
        → ServerStep n (record n { server = ServerAt.receiving s })
    fails_elsewhere :
        (s : Server P) (to : SocketAddr) (hdl : ConnectionHdl P) (m : ConnectionMessage P)
        → n.server ≡ ServerAt.sending s to hdl m
        → hdl ≢ here
        → ServerStep n (record n { server = ServerAt.receiving (dropping s to) })
    tells :
        (s : Server P) (e : ServerEvent P) (f : ControlFlow)
        → n.server ≡ ServerAt.telling s e f
        → n.for_user ≡ none
        → ServerStep n (record n { server = ServerAt.receiving s; for_user = some e })
    tell_fails :
        (s : Server P) (e : ServerEvent P) (f : ControlFlow)
        → n.server ≡ ServerAt.telling s e f
        → ServerStep n (record n { server = untold s f })
    asks :
        (s : Server P) (tx : OneshotSender (Result SocketAddr ListenAddrError))
        (to : OneshotSender (Result SocketAddr IoError))
        → n.server ≡ ServerAt.asking s tx
        → n.for_listener ≡ none
        → ServerStep n (record n {
          server = ServerAt.awaiting s tx;
          for_listener = some (ListenerMessage.get_address to);
        })
    ask_fails :
        (s : Server P) (tx : OneshotSender (Result SocketAddr ListenAddrError))
        → n.server ≡ ServerAt.asking s tx
        → n.listener ≡ ListenerAt.ended
        → ServerStep n (record n { server = ServerAt.receiving s })
    answered :
        (s : Server P) (tx : OneshotSender (Result SocketAddr ListenAddrError))
        (r : Result SocketAddr IoError)
        → n.server ≡ ServerAt.awaiting s tx
        → n.local ≡ some r
        → ServerStep n (record n { server = ServerAt.receiving s; local = none })
    unanswered :
        (s : Server P) (tx : OneshotSender (Result SocketAddr ListenAddrError))
        → n.server ≡ ServerAt.awaiting s tx
        → n.listener ≡ ListenerAt.ended
        → n.local ≡ none
        → ServerStep n (record n { server = ServerAt.receiving s })
    lists :
        (s : Server P) (entries : Map SocketAddr (ConnectionHdl P))
        → n.server ≡ ServerAt.leaving s
        → SameEntries SocketAddr-discrete entries s.connections
        → ServerStep n (record n { server = ServerAt.closing s entries })
    closes_here :
        (s : Server P) (to : SocketAddr) (rest : Map SocketAddr (ConnectionHdl P))
        → n.server ≡ ServerAt.closing s ((to, here) ∷ rest)
        → n.tasks.user ≡ none
        → ServerStep n (record n {
          server = ServerAt.closing s rest;
          tasks = record n.tasks { user = some ConnectionMessage.close };
        })
    gone_here :
        (s : Server P) (to : SocketAddr) (rest : Map SocketAddr (ConnectionHdl P))
        → n.server ≡ ServerAt.closing s ((to, here) ∷ rest)
        → n.tasks.connection ≡ ConnectionAt.ended
        → ServerStep n (record n { server = ServerAt.closing s rest })
    closes_elsewhere :
        (s : Server P) (to : SocketAddr) (hdl : ConnectionHdl P)
        (rest : Map SocketAddr (ConnectionHdl P))
        → n.server ≡ ServerAt.closing s ((to, hdl) ∷ rest)
        → hdl ≢ here
        → ServerStep n (record n { server = ServerAt.closing s rest })
    all_closed :
        (s : Server P)
        → n.server ≡ ServerAt.closing s []
        → ServerStep n (record n { server = ServerAt.closing_acceptor s })
    closes_acceptor :
        (s : Server P)
        → n.server ≡ ServerAt.closing_acceptor s
        → n.for_acceptor ≡ none
        → ServerStep n (record n {
          server = ServerAt.closing_listener s;
          for_acceptor = some AcceptorMessage.close;
        })
    acceptor_gone :
        (s : Server P)
        → n.server ≡ ServerAt.closing_acceptor s
        → n.acceptor ≡ AcceptorAt.ended
        → ServerStep n (record n { server = ServerAt.closing_listener s })
    closes_listener :
        (s : Server P)
        → n.server ≡ ServerAt.closing_listener s
        → n.for_listener ≡ none
        → ServerStep n
            (record n { server = ServerAt.ended; for_listener = some ListenerMessage.close })
    listener_gone :
        (s : Server P)
        → n.server ≡ ServerAt.closing_listener s
        → n.listener ≡ ListenerAt.ended
        → ServerStep n (record n { server = ServerAt.ended })

-- A step of a task, or of what is around them: the user of the server takes an event or completes
-- a request, a message comes to the server from the user or from the passer of another connection,
-- and a frame comes from the websocket.
module _ {P : Parser} (here : ConnectionHdl P) (peer : SocketAddr) where
  pub data Step (n : Net P) : Net P → Type 0 where
    server : {o : Net P} → ServerStep here n o → Step n o
    acceptor : {o : Net P} → AcceptorStep n o → Step n o
    listener : {o : Net P} → ListenerStep n o → Step n o
    link : {o : Net P} → LinkStep peer n o → Step n o
    user_takes : (e : ServerEvent P) → n.for_user ≡ some e → Step n (record n { for_user = none })
    calls : (m : ServerMessage P) → n.for_server ≡ none → Step n (record n { for_server = some m })
    -- The user completes a request that it has a handle of.
    replies :
        (m : OurMessage P)
        → n.tasks.for_sender ≡ none
        → Step n (record n {
          tasks = record n.tasks { for_sender = some (ConnectionTypes.SenderMessage.message m) };
        })
    reads :
        (m : ConnectionTypes.InternalMessage P)
        → n.tasks.receiver ≡ ReceiverAt.reading
        → Step n (record n { tasks = record n.tasks { receiver = ReceiverAt.reporting m } })

  pub data Steps (n : Net P) : Net P → Type 0 where
    rest : Steps n n
    more : {m o : Net P} → Steps n m → Step m o → Steps n o
