-- ===== src/Server/Silence.antt =====
-- src/server.rs with src/server/listener.rs and src/server/acceptor.rs: a server that waits for the
-- answer of its listener, which waits for the acceptor.
use rrev.Prelude.{◌≡◌, refl, none, Result}
use rrev.Channel.{OneshotSender, TcpStream, SocketAddr}
use rrev.Scheme.{Parser}
use rrev.Error.{ListenAddrError}
use rrev.Connection.Types.{ConnectionHdl}
use rrev.Server.Types.{Server}
use rrev.Server.Waiting.{Net, ServerAt, ListenerAt}
use rrev.Server.Steps as Steps
use rrev.Server.Steps.{ServerStep, AcceptorStep, ListenerStep, LinkStep, Step, Steps, rest, more}
use rrev.Server.Stall.{Stalled, kept}

-- The server waits for the answer of the listener, and the listener to send a stream to the acceptor.
pub record Unanswered {P : Parser} (s : Server P)
    (tx : OneshotSender (Result SocketAddr ListenAddrError)) (hdl : ConnectionHdl P)
    (addr : SocketAddr) (stream : TcpStream) (from : SocketAddr) (n : Net P) : Type 0 where
  pub stalled : Stalled (ServerAt.awaiting s tx) hdl addr n
  pub forwarding : n.listener ≡ ListenerAt.forwarding stream from
  pub no_answer : n.local ≡ none

module _ {P : Parser} {s : Server P} {tx : OneshotSender (Result SocketAddr ListenAddrError)}
    {hdl : ConnectionHdl P} {addr : SocketAddr} {stream : TcpStream} {from : SocketAddr} where
  -- A step that leaves the listener and the oneshot as they are.
  aside :
      {n o : Net P}
      → n.listener ≡ o.listener
      → n.local ≡ o.local
      → Stalled (ServerAt.awaiting s tx) hdl addr o
      → Unanswered s tx hdl addr stream from n
      → Unanswered s tx hdl addr stream from o
  aside p q t l = record {
    stalled = t;
    forwarding = cc (p, l.forwarding);
    no_answer = cc (q, l.no_answer);
  }

  ServerStep-Unanswered :
      {here : ConnectionHdl P} {n o : Net P}
      → ServerStep here n o
      → Unanswered s tx hdl addr stream from n
      → Unanswered s tx hdl addr stream from o
  ServerStep-Unanswered (Steps.takes _ _ h _) l = cc (h, l.stalled.waits)
  ServerStep-Unanswered (Steps.all_left _ h _ _ _) l = cc (h, l.stalled.waits)
  ServerStep-Unanswered (Steps.delivers _ _ _ h _) l = cc (h, l.stalled.waits)
  ServerStep-Unanswered (Steps.deliver_fails _ _ _ h _) l = cc (h, l.stalled.waits)
  ServerStep-Unanswered (Steps.delivers_elsewhere _ _ _ _ h _) l = cc (h, l.stalled.waits)
  ServerStep-Unanswered (Steps.fails_elsewhere _ _ _ _ h _) l = cc (h, l.stalled.waits)
  ServerStep-Unanswered (Steps.tells _ _ _ h _) l = cc (h, l.stalled.waits)
  ServerStep-Unanswered (Steps.tell_fails _ _ _ h) l = cc (h, l.stalled.waits)
  ServerStep-Unanswered (Steps.asks _ _ _ h _) l = cc (h, l.stalled.waits)
  ServerStep-Unanswered (Steps.ask_fails _ _ h _) l = cc (h, l.stalled.waits)
  ServerStep-Unanswered (Steps.answered _ _ _ _ h) l = cc (h, l.no_answer)
  ServerStep-Unanswered (Steps.unanswered _ _ _ h _) l = cc (h, l.forwarding)
  ServerStep-Unanswered (Steps.lists _ _ h _) l = cc (h, l.stalled.waits)
  ServerStep-Unanswered (Steps.closes_here _ _ _ h _) l = cc (h, l.stalled.waits)
  ServerStep-Unanswered (Steps.gone_here _ _ _ h _) l = cc (h, l.stalled.waits)
  ServerStep-Unanswered (Steps.closes_elsewhere _ _ _ _ h _) l = cc (h, l.stalled.waits)
  ServerStep-Unanswered (Steps.all_closed _ h) l = cc (h, l.stalled.waits)
  ServerStep-Unanswered (Steps.closes_acceptor _ h _) l = cc (h, l.stalled.waits)
  ServerStep-Unanswered (Steps.acceptor_gone _ h _) l = cc (h, l.stalled.waits)
  ServerStep-Unanswered (Steps.closes_listener _ h _) l = cc (h, l.stalled.waits)
  ServerStep-Unanswered (Steps.listener_gone _ h _) l = cc (h, l.stalled.waits)

  AcceptorStep-Unanswered :
      {n o : Net P}
      → AcceptorStep n o
      → Unanswered s tx hdl addr stream from n
      → Unanswered s tx hdl addr stream from o
  AcceptorStep-Unanswered (Steps.takes_stream _ _ h _) l = cc (h, l.stalled.announcing)
  AcceptorStep-Unanswered (Steps.handshake (Steps.upgrades _ _ _ h)) l =
      cc (h, l.stalled.announcing)
  AcceptorStep-Unanswered (Steps.handshake (Steps.upgrade_fails _ _ h)) l =
      cc (h, l.stalled.announcing)
  AcceptorStep-Unanswered (Steps.announces _ _ _ h) l = absurd (l.stalled.server_full h)
  AcceptorStep-Unanswered (Steps.announce_fails _ _ _ h) l = cc (h, l.stalled.waits)
  AcceptorStep-Unanswered (Steps.acceptor_left h _ _ _) l = cc (h, l.stalled.announcing)
  AcceptorStep-Unanswered (Steps.acceptor_closes h _) l = cc (h, l.stalled.announcing)

  ListenerStep-Unanswered :
      {n o : Net P}
      → ListenerStep n o
      → Unanswered s tx hdl addr stream from n
      → Unanswered s tx hdl addr stream from o
  ListenerStep-Unanswered (Steps.accepts _ _ h) l = cc (h, l.forwarding)
  ListenerStep-Unanswered (Steps.forwards _ _ _ h) l = absurd (l.stalled.acceptor_full h)
  ListenerStep-Unanswered (Steps.forward_fails _ _ _ h) l = cc (h, l.stalled.announcing)
  ListenerStep-Unanswered (Steps.answers _ _ h _) l = cc (h, l.forwarding)
  ListenerStep-Unanswered (Steps.listener_left h _ _) l = cc (h, l.forwarding)
  ListenerStep-Unanswered (Steps.listener_closes h _) l = cc (h, l.forwarding)

  LinkStep-Unanswered :
      {peer : SocketAddr} {n o : Net P}
      → LinkStep peer n o
      → Unanswered s tx hdl addr stream from n
      → Unanswered s tx hdl addr stream from o
  LinkStep-Unanswered (Steps.passer_takes _ _ _) l =
      aside refl refl (kept refl refl refl refl l.stalled) l
  LinkStep-Unanswered (Steps.passes _ _ h) l = absurd (l.stalled.server_full h)
  LinkStep-Unanswered (Steps.pass_fails _ _ _) l =
      aside refl refl (kept refl refl refl refl l.stalled) l
  LinkStep-Unanswered (Steps.passer_ends _ _ _) l =
      aside refl refl (kept refl refl refl refl l.stalled) l
  LinkStep-Unanswered (Steps.tell_lost _ _ _ _) l =
      aside refl refl (kept refl refl refl refl l.stalled) l
  LinkStep-Unanswered (Steps.end_lost _ _ _) l =
      aside refl refl (kept refl refl refl refl l.stalled) l
  LinkStep-Unanswered (Steps.works _ _) l = aside refl refl (kept refl refl refl refl l.stalled) l
  LinkStep-Unanswered (Steps.websocket _ _) l =
      aside refl refl (kept refl refl refl refl l.stalled) l

  Step-Unanswered :
      {here : ConnectionHdl P} {peer : SocketAddr} {n o : Net P}
      → Step here peer n o
      → Unanswered s tx hdl addr stream from n
      → Unanswered s tx hdl addr stream from o
  Step-Unanswered (Steps.server st) l = ServerStep-Unanswered st l
  Step-Unanswered (Steps.acceptor st) l = AcceptorStep-Unanswered st l
  Step-Unanswered (Steps.listener st) l = ListenerStep-Unanswered st l
  Step-Unanswered (Steps.link st) l = LinkStep-Unanswered st l
  Step-Unanswered (Steps.user_takes _ _) l = aside refl refl (kept refl refl refl refl l.stalled) l
  Step-Unanswered (Steps.calls _ h) l = absurd (l.stalled.server_full h)
  Step-Unanswered (Steps.replies _ _) l = aside refl refl (kept refl refl refl refl l.stalled) l
  Step-Unanswered (Steps.reads _ _) l = aside refl refl (kept refl refl refl refl l.stalled) l

  pub Steps-Unanswered :
      {here : ConnectionHdl P} {peer : SocketAddr} {n o : Net P}
      → Steps here peer n o
      → Unanswered s tx hdl addr stream from n
      → Unanswered s tx hdl addr stream from o
  Steps-Unanswered rest l = l
  Steps-Unanswered (more ss st) l = Step-Unanswered st (Steps-Unanswered ss l)
