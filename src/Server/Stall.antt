-- ===== src/Server/Stall.antt =====
-- src/server.rs with src/server/listener.rs and src/server/acceptor.rs: a server, its listener and
-- its acceptor that wait for each other.
use rrev.Prelude.{◌≡◌, ◌≢◌, refl, none, ◌∙◌}
use rrev.Channel.{SocketAddr}
use rrev.Scheme.{Parser}
use rrev.Connection.Types.{ConnectionHdl}
use rrev.Server.Types.{Server}
use rrev.Server.Waiting.{Net, ServerAt, AcceptorAt}
use rrev.Server.Steps as Steps
use rrev.Server.Steps.{ServerStep, AcceptorStep, ListenerStep, LinkStep, Step, Steps, rest, more}

-- The server waits at `v`, and the acceptor to tell the server of a connection.
pub record Stalled {P : Parser} (v : ServerAt P) (hdl : ConnectionHdl P) (addr : SocketAddr)
    (n : Net P) : Type 0 where
  pub waits : n.server ≡ v
  pub announcing : n.acceptor ≡ AcceptorAt.announcing hdl addr
  pub server_full : n.for_server ≢ none
  pub acceptor_full : n.for_acceptor ≢ none

module _ {P : Parser} {v : ServerAt P} {hdl : ConnectionHdl P} {addr : SocketAddr} where
  pub kept :
      {n o : Net P}
      → n.server ≡ o.server
      → n.acceptor ≡ o.acceptor
      → n.for_server ≡ o.for_server
      → n.for_acceptor ≡ o.for_acceptor
      → Stalled v hdl addr n
      → Stalled v hdl addr o
  kept p q r t l = record {
    waits = cc (p, l.waits);
    announcing = cc (q, l.announcing);
    server_full = λ h. l.server_full (r ∙ h);
    acceptor_full = λ h. l.acceptor_full (t ∙ h);
  }

  AcceptorStep-Stalled :
      {n o : Net P}
      → n.server ≢ ServerAt.ended
      → AcceptorStep n o
      → Stalled v hdl addr n
      → Stalled v hdl addr o
  AcceptorStep-Stalled live (Steps.takes_stream _ _ h _) l = cc (h, l.announcing)
  AcceptorStep-Stalled live (Steps.handshake (Steps.upgrades _ _ _ h)) l = cc (h, l.announcing)
  AcceptorStep-Stalled live (Steps.handshake (Steps.upgrade_fails _ _ h)) l = cc (h, l.announcing)
  AcceptorStep-Stalled live (Steps.announces _ _ _ h) l = absurd (l.server_full h)
  AcceptorStep-Stalled live (Steps.announce_fails _ _ _ h) l = absurd (live h)
  AcceptorStep-Stalled live (Steps.acceptor_left h _ _ _) l = cc (h, l.announcing)
  AcceptorStep-Stalled live (Steps.acceptor_closes h _) l = cc (h, l.announcing)

  ListenerStep-Stalled :
      {n o : Net P} → ListenerStep n o → Stalled v hdl addr n → Stalled v hdl addr o
  ListenerStep-Stalled (Steps.accepts _ _ _) l = kept refl refl refl refl l
  ListenerStep-Stalled (Steps.forwards _ _ _ h) l = absurd (l.acceptor_full h)
  ListenerStep-Stalled (Steps.forward_fails _ _ _ _) l = kept refl refl refl refl l
  ListenerStep-Stalled (Steps.answers _ _ _ _) l = kept refl refl refl refl l
  ListenerStep-Stalled (Steps.listener_left _ _ _) l = kept refl refl refl refl l
  ListenerStep-Stalled (Steps.listener_closes _ _) l = kept refl refl refl refl l

  LinkStep-Stalled :
      {peer : SocketAddr} {n o : Net P}
      → LinkStep peer n o
      → Stalled v hdl addr n
      → Stalled v hdl addr o
  LinkStep-Stalled (Steps.passer_takes _ _ _) l = kept refl refl refl refl l
  LinkStep-Stalled (Steps.passes _ _ h) l = absurd (l.server_full h)
  LinkStep-Stalled (Steps.pass_fails _ _ _) l = kept refl refl refl refl l
  LinkStep-Stalled (Steps.passer_ends _ _ _) l = kept refl refl refl refl l
  LinkStep-Stalled (Steps.tell_lost _ _ _ _) l = kept refl refl refl refl l
  LinkStep-Stalled (Steps.end_lost _ _ _) l = kept refl refl refl refl l
  LinkStep-Stalled (Steps.works _ _) l = kept refl refl refl refl l
  LinkStep-Stalled (Steps.websocket _ _) l = kept refl refl refl refl l

-- What the server waits for at a query of its address, or at the close of its acceptor, does not
-- come.
module _ {P : Parser} {here : ConnectionHdl P} {s : Server P} {hdl : ConnectionHdl P}
    {addr : SocketAddr} where
  ServerStep-closing :
      {n o : Net P}
      → ServerStep here n o
      → Stalled (ServerAt.closing_acceptor s) hdl addr n
      → Stalled (ServerAt.closing_acceptor s) hdl addr o
  ServerStep-closing (Steps.takes _ _ h _) l = cc (h, l.waits)
  ServerStep-closing (Steps.all_left _ h _ _ _) l = cc (h, l.waits)
  ServerStep-closing (Steps.delivers _ _ _ h _) l = cc (h, l.waits)
  ServerStep-closing (Steps.deliver_fails _ _ _ h _) l = cc (h, l.waits)
  ServerStep-closing (Steps.delivers_elsewhere _ _ _ _ h _) l = cc (h, l.waits)
  ServerStep-closing (Steps.fails_elsewhere _ _ _ _ h _) l = cc (h, l.waits)
  ServerStep-closing (Steps.tells _ _ _ h _) l = cc (h, l.waits)
  ServerStep-closing (Steps.tell_fails _ _ _ h) l = cc (h, l.waits)
  ServerStep-closing (Steps.asks _ _ _ h _) l = cc (h, l.waits)
  ServerStep-closing (Steps.ask_fails _ _ h _) l = cc (h, l.waits)
  ServerStep-closing (Steps.answered _ _ _ h _) l = cc (h, l.waits)
  ServerStep-closing (Steps.unanswered _ _ h _ _) l = cc (h, l.waits)
  ServerStep-closing (Steps.lists _ _ h _) l = cc (h, l.waits)
  ServerStep-closing (Steps.closes_here _ _ _ h _) l = cc (h, l.waits)
  ServerStep-closing (Steps.gone_here _ _ _ h _) l = cc (h, l.waits)
  ServerStep-closing (Steps.closes_elsewhere _ _ _ _ h _) l = cc (h, l.waits)
  ServerStep-closing (Steps.all_closed _ h) l = cc (h, l.waits)
  ServerStep-closing (Steps.closes_acceptor _ _ h) l = absurd (l.acceptor_full h)
  ServerStep-closing (Steps.acceptor_gone _ _ h) l = cc (h, l.announcing)
  ServerStep-closing (Steps.closes_listener _ h _) l = cc (h, l.waits)
  ServerStep-closing (Steps.listener_gone _ h _) l = cc (h, l.waits)

  Step-closing :
      {peer : SocketAddr} {n o : Net P}
      → Step here peer n o
      → Stalled (ServerAt.closing_acceptor s) hdl addr n
      → Stalled (ServerAt.closing_acceptor s) hdl addr o
  Step-closing (Steps.server st) l = ServerStep-closing st l
  Step-closing (Steps.acceptor st) l = AcceptorStep-Stalled (λ h. cc (h, l.waits)) st l
  Step-closing (Steps.listener st) l = ListenerStep-Stalled st l
  Step-closing (Steps.link st) l = LinkStep-Stalled st l
  Step-closing (Steps.user_takes _ _) l = kept refl refl refl refl l
  Step-closing (Steps.calls _ h) l = absurd (l.server_full h)
  Step-closing (Steps.replies _ _) l = kept refl refl refl refl l
  Step-closing (Steps.reads _ _) l = kept refl refl refl refl l

  pub Steps-closing :
      {peer : SocketAddr} {n o : Net P}
      → Steps here peer n o
      → Stalled (ServerAt.closing_acceptor s) hdl addr n
      → Stalled (ServerAt.closing_acceptor s) hdl addr o
  Steps-closing rest l = l
  Steps-closing (more ss st) l = Step-closing st (Steps-closing ss l)
