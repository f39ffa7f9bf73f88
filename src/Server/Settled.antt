-- ===== src/Server/Settled.antt =====
-- src/server.rs, src/server/acceptor.rs, src/server/listener.rs, src/server/connection_passer.rs and
-- src/connection.rs: where the tasks of a server stand when none of them can go on.
use rrev.Prelude.{◌≡◌, ◌≢◌, refl, ◌⊎◌, none, [], ◌∷◌, Result, ControlFlow}
use rrev.Prelude.Map.{Map, insert, insert-Distinct, get-insert, get, SameEntries}
use rrev.Channel.{OneshotSender, TcpStream, SocketAddr, SocketAddr-discrete}
use rrev.Scheme.{Parser}
use rrev.Error.{ListenAddrError}
use rrev.Connection.Types.{ConnectionHdl, ConnectionMessage, ConnectionEvent}
use rrev.Connection.Stuck.{Rests, WaitsForOwner, Locks}
use rrev.Server.Types.{Server, ServerEvent}
use rrev.Server.Waiting.{Net, ServerAt, AcceptorAt, ListenerAt, PasserAt}
use rrev.Server.Stall.{Stalled}
use rrev.Server.Silence.{Unanswered}

module _ {P : Parser} (here : ConnectionHdl P) where
  -- The server is at a send to the connection `here`.
  pub data SendsHere (n : Net P) : Type 0 where
    message :
        (s : Server P) (to : SocketAddr) (m : ConnectionMessage P)
        → n.server ≡ ServerAt.sending s to here m
        → SendsHere n
    close :
        (s : Server P) (to : SocketAddr) (rest : Map SocketAddr (ConnectionHdl P))
        → n.server ≡ ServerAt.closing s ((to, here) ∷ rest)
        → SendsHere n

  -- The passer has ended or waits for an event, and so do the tasks of the connection, unless it and
  -- its sender wait for each other.
  pub record LinkRests (n : Net P) : Type 0 where
    pub passer_rests :
        (n.passer ≡ PasserAt.ended) ⊎ ((n.passer ≡ PasserAt.receiving) × (n.tasks.owner ≡ none))
    pub tasks_rest : Rests n.tasks ⊎ Locks n.tasks

  -- What the tasks of a server can come to that none of them leaves by itself.
  pub data Settled (n : Net P) : Type 0 where
    -- The server, its acceptor and its listener wait for messages.
    idle :
        (s : Server P)
        → n.server ≡ ServerAt.receiving s
        → n.for_server ≡ none
        → n.acceptor ≡ AcceptorAt.receiving
        → n.for_acceptor ≡ none
        → n.listener ≡ ListenerAt.selecting
        → n.for_listener ≡ none
        → LinkRests n
        → Settled n
    -- The server, its acceptor and its listener have ended.
    over :
        n.server ≡ ServerAt.ended
        → n.acceptor ≡ AcceptorAt.ended
        → n.listener ≡ ListenerAt.ended
        → LinkRests n
        → Settled n
    -- The server waits until its user takes an event.
    untaken :
        (s : Server P) (e : ServerEvent P) (f : ControlFlow)
        → n.server ≡ ServerAt.telling s e f
        → n.for_user ≢ none
        → Settled n
    -- The server waits for the connection, which waits for the passer, which waits for the server.
    flooded :
        (e : ConnectionEvent P)
        → SendsHere n
        → n.tasks.user ≢ none
        → WaitsForOwner n.tasks
        → n.passer ≡ PasserAt.passing e
        → n.for_server ≢ none
        → Settled n
    -- The server waits for the connection, which waits for its sender, which waits for it.
    locked : SendsHere n → n.tasks.user ≢ none → Locks n.tasks → Settled n
    -- The server waits for the listener, which waits for the acceptor, which waits for the server.
    unanswered :
        (s : Server P) (tx : OneshotSender (Result SocketAddr ListenAddrError))
        (hdl : ConnectionHdl P) (addr : SocketAddr) (stream : TcpStream) (from : SocketAddr)
        → Unanswered s tx hdl addr stream from n
        → Settled n
    -- The server waits to tell the acceptor to close, which waits for the server.
    stalled :
        (s : Server P) (hdl : ConnectionHdl P) (addr : SocketAddr)
        → Stalled (ServerAt.closing_acceptor s) hdl addr n
        → Settled n

-- Each map can be traversed.
pub traversal :
    {V : Type 0} (m : Map SocketAddr V)
    → (es : Map SocketAddr V) × SameEntries SocketAddr-discrete es m
unfolding get
traversal [] = ([], record { distinct = tt; agree = λ k. refl })
traversal ((k, v) ∷ m) =
    let (es, same) = traversal m in
    (
      insert SocketAddr-discrete k v es,
      record {
        distinct = insert-Distinct SocketAddr-discrete k v es same.distinct;
        agree = λ j. rw (get-insert SocketAddr-discrete j k v es, same.agree j) refl;
      },
    )
