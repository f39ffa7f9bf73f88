-- ===== src/Server/Flood.antt =====
-- src/server.rs with src/server/connection_passer.rs: a server, one of its connections and the
-- passer between them that wait for each other.
use rrev.Prelude.{◌≡◌, ◌≢◌, refl, none, ◌∙◌, subst}
use rrev.Channel.{SocketAddr}
use rrev.Scheme.{Parser}
use rrev.Connection.Types.{Connection, ConnectionHdl, ConnectionMessage, ConnectionEvent}
use rrev.Connection.Waiting.{
  Tasks, ConnectionAt, Work, takes_external, takes_internal, sends, send_fails, tells,
  closes_receiver, receiver_gone, closes_sender, sender_gone, tells_end, sender_writes,
  sender_skips, Answer, write_ends, write_fails, close_ends, sender_reports, report_fails,
  sender_closes, receiver_reports, receiver_report_fails, receiver_closes,
}
use rrev.Server.Types.{Server}
use rrev.Server.Waiting.{Net, ServerAt, PasserAt}
use rrev.Server.Keeping.{ListenerStep-Keeps}
use rrev.Server.Steps as Steps
use rrev.Server.Steps.{ServerStep, AcceptorStep, ListenerStep, LinkStep, Step, Steps, rest, more}

module _ {P : Parser} where
  -- The connection waits to tell `e` to its owner, whose channel is full, and nobody may send to it.
  pub record Full (c : Connection P) (e : ConnectionEvent P) (n : Tasks P) : Type 0 where
    pub telling : n.connection ≡ ConnectionAt.telling c e
    pub owner_full : n.owner ≢ none
    pub user_full : n.user ≢ none

  Full-kept :
      {c : Connection P} {e : ConnectionEvent P} {n o : Tasks P}
      → n.connection ≡ o.connection
      → n.owner ≡ o.owner
      → n.user ≡ o.user
      → Full c e n
      → Full c e o
  Full-kept p q r l = record {
    telling = cc (p, l.telling);
    owner_full = λ h. l.owner_full (q ∙ h);
    user_full = λ h. l.user_full (r ∙ h);
  }

  Work-Full :
      {c : Connection P} {e : ConnectionEvent P} {n o : Tasks P}
      → Work n o
      → Full c e n
      → Full c e o
  Work-Full (takes_external _ _ _ h _) l = cc (h, l.telling)
  Work-Full (takes_internal _ _ _ h _) l = cc (h, l.telling)
  Work-Full (sends _ _ _ h _) l = cc (h, l.telling)
  Work-Full (send_fails _ _ _ h _) l = cc (h, l.telling)
  Work-Full (tells _ _ _ _ h) l = absurd (l.owner_full h)
  Work-Full (closes_receiver _ _ h _) l = cc (h, l.telling)
  Work-Full (receiver_gone _ _ h _) l = cc (h, l.telling)
  Work-Full (closes_sender _ _ h _) l = cc (h, l.telling)
  Work-Full (sender_gone _ _ h _) l = cc (h, l.telling)
  Work-Full (tells_end _ _ h _) l = cc (h, l.telling)
  Work-Full (report_fails _ _ h) l = cc (h, l.telling)
  Work-Full (receiver_report_fails _ _ _ h) l = cc (h, l.telling)
  Work-Full (sender_writes _ _ _ _) l = Full-kept refl refl refl l
  Work-Full (sender_skips _ _ _ _) l = Full-kept refl refl refl l
  Work-Full (sender_reports _ _ _) l = Full-kept refl refl refl l
  Work-Full (sender_closes _ _ _) l = Full-kept refl refl refl l
  Work-Full (receiver_reports _ _ _ _) l = Full-kept refl refl refl l
  Work-Full (receiver_closes _ _ _) l = Full-kept refl refl refl l

  Answer-Full :
      {c : Connection P} {e : ConnectionEvent P} {n o : Tasks P}
      → Answer n o
      → Full c e n
      → Full c e o
  Answer-Full (write_ends _ _) l = Full-kept refl refl refl l
  Answer-Full (write_fails _ _) l = Full-kept refl refl refl l
  Answer-Full (close_ends _ _) l = Full-kept refl refl refl l

-- The server waits to send `m` to the connection `here`, the connection to tell its owner, and the
-- owner, which is the passer, to tell the server.
pub record Flooded {P : Parser} (here : ConnectionHdl P) (s : Server P) (to : SocketAddr)
    (m : ConnectionMessage P) (c : Connection P) (e x : ConnectionEvent P) (n : Net P)
    : Type 0 where
  pub delivering : n.server ≡ ServerAt.sending s to here m
  pub full : Full c e n.tasks
  pub passing : n.passer ≡ PasserAt.passing x
  pub server_full : n.for_server ≢ none

module _ {P : Parser} {here : ConnectionHdl P} {s : Server P} {to : SocketAddr}
    {m : ConnectionMessage P} {c : Connection P} {e x : ConnectionEvent P} where
  kept :
      {n o : Net P}
      → n.server ≡ o.server
      → n.passer ≡ o.passer
      → n.for_server ≡ o.for_server
      → Full c e o.tasks
      → Flooded here s to m c e x n
      → Flooded here s to m c e x o
  kept p q r f l = record {
    delivering = cc (p, l.delivering);
    full = f;
    passing = cc (q, l.passing);
    server_full = λ h. l.server_full (r ∙ h);
  }

  ServerStep-Flooded :
      {n o : Net P}
      → ServerStep here n o
      → Flooded here s to m c e x n
      → Flooded here s to m c e x o
  ServerStep-Flooded (Steps.takes _ _ h _) l = cc (h, l.delivering)
  ServerStep-Flooded (Steps.all_left _ h _ _ _) l = cc (h, l.delivering)
  ServerStep-Flooded (Steps.delivers _ _ _ _ h) l = absurd (l.full.user_full h)
  ServerStep-Flooded (Steps.deliver_fails _ _ _ _ h) l = cc (h, l.full.telling)
  ServerStep-Flooded (Steps.delivers_elsewhere _ _ _ _ h other) l =
      absurd (other (cc (h, l.delivering)))
  ServerStep-Flooded (Steps.fails_elsewhere _ _ _ _ h other) l =
      absurd (other (cc (h, l.delivering)))
  ServerStep-Flooded (Steps.tells _ _ _ h _) l = cc (h, l.delivering)
  ServerStep-Flooded (Steps.tell_fails _ _ _ h) l = cc (h, l.delivering)
  ServerStep-Flooded (Steps.asks _ _ _ h _) l = cc (h, l.delivering)
  ServerStep-Flooded (Steps.ask_fails _ _ h _) l = cc (h, l.delivering)
  ServerStep-Flooded (Steps.answered _ _ _ h _) l = cc (h, l.delivering)
  ServerStep-Flooded (Steps.unanswered _ _ h _ _) l = cc (h, l.delivering)
  ServerStep-Flooded (Steps.lists _ _ h _) l = cc (h, l.delivering)
  ServerStep-Flooded (Steps.closes_here _ _ _ h _) l = cc (h, l.delivering)
  ServerStep-Flooded (Steps.gone_here _ _ _ h _) l = cc (h, l.delivering)
  ServerStep-Flooded (Steps.closes_elsewhere _ _ _ _ h _) l = cc (h, l.delivering)
  ServerStep-Flooded (Steps.all_closed _ h) l = cc (h, l.delivering)
  ServerStep-Flooded (Steps.closes_acceptor _ h _) l = cc (h, l.delivering)
  ServerStep-Flooded (Steps.acceptor_gone _ h _) l = cc (h, l.delivering)
  ServerStep-Flooded (Steps.closes_listener _ h _) l = cc (h, l.delivering)
  ServerStep-Flooded (Steps.listener_gone _ h _) l = cc (h, l.delivering)

  AcceptorStep-Flooded :
      {n o : Net P} → AcceptorStep n o → Flooded here s to m c e x n → Flooded here s to m c e x o
  AcceptorStep-Flooded (Steps.takes_stream _ _ _ _) l = kept refl refl refl l.full l
  AcceptorStep-Flooded (Steps.handshake (Steps.upgrades _ _ _ _)) l = kept refl refl refl l.full l
  AcceptorStep-Flooded (Steps.handshake (Steps.upgrade_fails _ _ _)) l =
      kept refl refl refl l.full l
  AcceptorStep-Flooded (Steps.announces _ _ _ h) l = absurd (l.server_full h)
  AcceptorStep-Flooded (Steps.announce_fails _ _ _ _) l = kept refl refl refl l.full l
  AcceptorStep-Flooded (Steps.acceptor_left _ _ _ _) l = kept refl refl refl l.full l
  AcceptorStep-Flooded (Steps.acceptor_closes _ _) l = kept refl refl refl l.full l

  ListenerStep-Flooded :
      {n o : Net P} → ListenerStep n o → Flooded here s to m c e x n → Flooded here s to m c e x o
  ListenerStep-Flooded st l =
      let k = ListenerStep-Keeps st in
      kept k.server k.passer k.for_server (subst (λ t. Full c e t) k.tasks l.full) l

  LinkStep-Flooded :
      {peer : SocketAddr} {n o : Net P}
      → LinkStep peer n o
      → Flooded here s to m c e x n
      → Flooded here s to m c e x o
  LinkStep-Flooded (Steps.passer_takes _ h _) l = cc (h, l.passing)
  LinkStep-Flooded (Steps.passes _ _ h) l = absurd (l.server_full h)
  LinkStep-Flooded (Steps.pass_fails _ _ h) l = cc (h, l.delivering)
  LinkStep-Flooded (Steps.passer_ends h _ _) l = cc (h, l.passing)
  LinkStep-Flooded (Steps.tell_lost _ _ _ h) l = cc (h, l.passing)
  LinkStep-Flooded (Steps.end_lost _ _ h) l = cc (h, l.passing)
  LinkStep-Flooded (Steps.works _ w) l = kept refl refl refl (Work-Full w l.full) l
  LinkStep-Flooded (Steps.websocket _ a) l = kept refl refl refl (Answer-Full a l.full) l

  Step-Flooded :
      {peer : SocketAddr} {n o : Net P}
      → Step here peer n o
      → Flooded here s to m c e x n
      → Flooded here s to m c e x o
  Step-Flooded (Steps.server st) l = ServerStep-Flooded st l
  Step-Flooded (Steps.acceptor st) l = AcceptorStep-Flooded st l
  Step-Flooded (Steps.listener st) l = ListenerStep-Flooded st l
  Step-Flooded (Steps.link st) l = LinkStep-Flooded st l
  Step-Flooded (Steps.user_takes _ _) l = kept refl refl refl l.full l
  Step-Flooded (Steps.calls _ h) l = absurd (l.server_full h)
  Step-Flooded (Steps.replies _ _) l = kept refl refl refl (Full-kept refl refl refl l.full) l
  Step-Flooded (Steps.reads _ _) l = kept refl refl refl (Full-kept refl refl refl l.full) l

  pub Steps-Flooded :
      {peer : SocketAddr} {n o : Net P}
      → Steps here peer n o
      → Flooded here s to m c e x n
      → Flooded here s to m c e x o
  Steps-Flooded rest l = l
  Steps-Flooded (more ss st) l = Step-Flooded st (Steps-Flooded ss l)
