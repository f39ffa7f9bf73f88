-- ===== src/Server/Accepting.antt =====
-- src/server/acceptor.rs, `run`: what comes of the streams that the acceptor is given.
use rrev.Prelude.{
  ◌≡◌, ap, subst, List, [], ◌∷◌, ok, err, ControlFlow, go_on, stop, arith, inl, inr, Result-cases,
  ControlFlow-cases,
}
use rrev.Channel.{TcpStream, WsStream, SocketAddr, WsError}
use rrev.Scheme.{Parser}
use rrev.Runtime.{Tokio, World, Entry}
use rrev.Server.Types.{Acceptor, AcceptorMessage}
use rrev.Server.Acceptor.{accept_stream, handle_message, run}
use rrev.Server.Wiring.{Opened, accept_stream_opens}

-- How the acceptor's task goes through its messages: what was done before and after, newest first,
-- and the messages that it leaves.
pub data Accepts {P : Parser} (tokio : Tokio P) (a : Acceptor P)
    : List AcceptorMessage → List (Entry P) → List (Entry P) → List AcceptorMessage → Type 0 where
  -- All senders are gone.
  ended : {h : List (Entry P)} → Accepts tokio a [] h h []
  closed :
      {ms : List AcceptorMessage} {h : List (Entry P)}
      → Accepts tokio a (AcceptorMessage.close ∷ ms) h h ms
  -- A stream that cannot be upgraded is dropped.
  refused :
      {stream : TcpStream} {addr : SocketAddr} {ms left : List AcceptorMessage}
      {before after : List (Entry P)} (env : tokio.Env) (e : WsError)
      → (tokio.upgrade stream env).0 ≡ err e
      → Accepts tokio a ms before after left
      → Accepts tokio a (AcceptorMessage.new_stream stream addr ∷ ms) before after left
  -- One that can be upgraded gets its tasks, and the server is told.
  opened :
      {stream : TcpStream} {addr : SocketAddr} {ms left : List AcceptorMessage}
      {before now after : List (Entry P)} (env : tokio.Env) (s : WsStream)
      → (tokio.upgrade stream env).0 ≡ ok s
      → Opened a s addr before go_on now
      → Accepts tokio a ms now after left
      → Accepts tokio a (AcceptorMessage.new_stream stream addr ∷ ms) before after left
  -- The server is gone.
  untold :
      {stream : TcpStream} {addr : SocketAddr} {ms : List AcceptorMessage}
      {before now : List (Entry P)} (env : tokio.Env) (s : WsStream)
      → (tokio.upgrade stream env).0 ≡ ok s
      → Opened a s addr before stop now
      → Accepts tokio a (AcceptorMessage.new_stream stream addr ∷ ms) before now ms

module _ {P : Parser} {tokio : Tokio P} where
  accept_stream-err :
      (a : Acceptor P) (stream : TcpStream) (addr : SocketAddr) (w : World tokio) (e : WsError)
      → (tokio.upgrade stream w.env).0 ≡ err e
      → accept_stream a stream addr w ≡ (go_on, record w { env = (tokio.upgrade stream w.env).1 })
  unfolding accept_stream
  accept_stream-err a stream addr w e bad = ground arith

  run-new_stream :
      (a : Acceptor P) (stream : TcpStream) (addr : SocketAddr) (ms : List AcceptorMessage)
      (w : World tokio)
      → (accept_stream a stream addr w).0 ≡ go_on
      → run a (AcceptorMessage.new_stream stream addr ∷ ms) w
        ≡ run a ms (accept_stream a stream addr w).1
  unfolding run handle_message
  run-new_stream a stream addr ms w e = ground arith

  run-untold :
      (a : Acceptor P) (stream : TcpStream) (addr : SocketAddr) (ms : List AcceptorMessage)
      (w : World tokio)
      → (accept_stream a stream addr w).0 ≡ stop
      → run a (AcceptorMessage.new_stream stream addr ∷ ms) w
        ≡ (ms, (accept_stream a stream addr w).1)
  unfolding run handle_message
  run-untold a stream addr ms w e = ground arith

  -- The acceptor's task takes its streams in order until it is told to close, all senders are gone,
  -- or the server is gone. A stream that cannot be upgraded leaves no trace. One that can gets four
  -- tasks: the connection with its two halves, and a passer that takes the connection's events to
  -- the server under the address of the peer; and the server is sent a handle whose messages go to
  -- that connection. Nothing else is done.
  pub run-Accepts :
      (ms : List AcceptorMessage) (a : Acceptor P) (w : World tokio)
      → let (left, w') = run a ms w in Accepts tokio a ms w.history w'.history left
  run-Accepts [] a w = unfold run in Accepts.ended
  run-Accepts (AcceptorMessage.close ∷ ms) a w = unfold run handle_message in Accepts.closed
  run-Accepts (AcceptorMessage.new_stream stream addr ∷ ms) a w =
      let w' : World tokio = (accept_stream a stream addr w).1 in
      elim (Result-cases (tokio.upgrade stream w.env).0) [
        | inr (e, bad) ↦
            let dropped = accept_stream-err a stream addr w e bad in
            rw (run-new_stream a stream addr ms w (ap (λ r. r.0) dropped), dropped)
              (Accepts.refused w.env e bad
                (run-Accepts ms a (record w { env = (tokio.upgrade stream w.env).1 })))
        | inl (s, good) ↦
            let tasks : (flow : ControlFlow)
                → (accept_stream a stream addr w).0 ≡ flow
                → Opened a s addr w.history flow w'.history =
              λ flow g.
                subst (λ f. Opened a s addr w.history f w'.history) g
                  (accept_stream_opens a stream addr w s good) in
            elim (ControlFlow-cases (accept_stream a stream addr w).0) [
              | inl g ↦
                  rw (run-new_stream a stream addr ms w g)
                    (Accepts.opened w.env s good (tasks go_on g) (run-Accepts ms a w'))
              | inr g ↦
                  rw (run-untold a stream addr ms w g) (Accepts.untold w.env s good (tasks stop g))
            ]
      ]
