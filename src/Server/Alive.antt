-- ===== src/Server/Alive.antt =====
-- src/server.rs: that the server's channel does not close while its task is in its loop.
use rrev.Prelude.{◌≡◌, ◌≢◌, refl, ap, ◌∙◌, Bool, true, false, some}
use rrev.Channel.{SocketAddr}
use rrev.Scheme.{Parser}
use rrev.Connection.Types.{Connection, ConnectionHdl}
use rrev.Server.Types.{Server, AcceptorMessage}
use rrev.Server.Waiting.{Net, ServerAt, AcceptorAt}
use rrev.Server.Keeping.{LinkStep-Keeps}
use rrev.Server.Steps as Steps
use rrev.Server.Steps.{ServerStep, AcceptorStep, ListenerStep, LinkStep, Step, Steps, rest, more}
use rrev.Server.Deadlock.{quiet}

-- Whether the server's task is still in its loop.
abbrev pub looping : {P : Parser} → ServerAt P → Bool
looping (ServerAt.receiving _) = true
looping (ServerAt.sending _ _ _ _) = true
looping (ServerAt.telling _ _ _) = true
looping (ServerAt.asking _ _) = true
looping (ServerAt.awaiting _ _) = true
looping _ = false

-- The acceptor runs on, and it is not told to close.
record Running {P : Parser} (n : Net P) : Type 0 where
  runs : n.acceptor ≢ AcceptorAt.ended
  untold : n.for_acceptor ≢ some AcceptorMessage.close

module _ {P : Parser} where
  abbrev Alive : Net P → Type 0
  Alive n = looping n.server ≡ true → Running n

  -- A step that leaves the acceptor and its channel as they are, and starts in the loop.
  looped :
      {n o : Net P}
      → looping n.server ≡ true
      → n.acceptor ≡ o.acceptor
      → n.for_acceptor ≡ o.for_acceptor
      → Alive n
      → Alive o
  looped h p q l _ =
      let r = l h in record { runs = λ e. r.runs (p ∙ e); untold = λ e. r.untold (q ∙ e) }

  -- A step that leaves the loop, or is outside it.
  left : {n : Net P} → looping n.server ≡ false → Alive n
  left h q = cc (h, q)

  ServerStep-Alive :
      {here : ConnectionHdl P} {n o : Net P} → ServerStep here n o → Alive n → Alive o
  ServerStep-Alive (Steps.takes _ _ h _) l = looped (ap looping h) refl refl l
  ServerStep-Alive (Steps.all_left _ _ _ _ _) l = left refl
  ServerStep-Alive (Steps.delivers _ _ _ h _) l = looped (ap looping h) refl refl l
  ServerStep-Alive (Steps.deliver_fails _ _ _ h _) l = looped (ap looping h) refl refl l
  ServerStep-Alive (Steps.delivers_elsewhere _ _ _ _ h _) l = looped (ap looping h) refl refl l
  ServerStep-Alive (Steps.fails_elsewhere _ _ _ _ h _) l = looped (ap looping h) refl refl l
  ServerStep-Alive (Steps.tells _ _ _ h _) l = looped (ap looping h) refl refl l
  ServerStep-Alive (Steps.tell_fails _ _ _ h) l = looped (ap looping h) refl refl l
  ServerStep-Alive (Steps.asks _ _ _ h _) l = looped (ap looping h) refl refl l
  ServerStep-Alive (Steps.ask_fails _ _ h _) l = looped (ap looping h) refl refl l
  ServerStep-Alive (Steps.answered _ _ _ h _) l = looped (ap looping h) refl refl l
  ServerStep-Alive (Steps.unanswered _ _ h _ _) l = looped (ap looping h) refl refl l
  ServerStep-Alive (Steps.lists _ _ _ _) l = left refl
  ServerStep-Alive (Steps.closes_here _ _ _ _ _) l = left refl
  ServerStep-Alive (Steps.gone_here _ _ _ _ _) l = left refl
  ServerStep-Alive (Steps.closes_elsewhere _ _ _ _ _ _) l = left refl
  ServerStep-Alive (Steps.all_closed _ _) l = left refl
  ServerStep-Alive (Steps.closes_acceptor _ _ _) l = left refl
  ServerStep-Alive (Steps.acceptor_gone _ _ _) l = left refl
  ServerStep-Alive (Steps.closes_listener _ _ _) l = left refl
  ServerStep-Alive (Steps.listener_gone _ _ _) l = left refl

  AcceptorStep-Alive : {n o : Net P} → AcceptorStep n o → Alive n → Alive o
  AcceptorStep-Alive (Steps.takes_stream _ _ _ _) l q = record {
    runs = λ e. cc e;
    untold = λ e. cc e;
  }
  AcceptorStep-Alive (Steps.handshake (Steps.upgrades _ _ _ _)) l q = record {
    runs = λ e. cc e;
    untold = (l q).untold;
  }
  AcceptorStep-Alive (Steps.handshake (Steps.upgrade_fails _ _ _)) l q = record {
    runs = λ e. cc e;
    untold = (l q).untold;
  }
  AcceptorStep-Alive (Steps.announces _ _ _ _) l q = record {
    runs = λ e. cc e;
    untold = (l q).untold;
  }
  AcceptorStep-Alive (Steps.announce_fails _ _ _ h) l q = cc (ap looping h, q)
  AcceptorStep-Alive (Steps.acceptor_left _ _ h _) l q = cc (ap looping h, q)
  AcceptorStep-Alive (Steps.acceptor_closes _ h) l q = absurd ((l q).untold h)

  ListenerStep-Alive : {n o : Net P} → ListenerStep n o → Alive n → Alive o
  ListenerStep-Alive (Steps.forwards _ _ _ _) l q = record { runs = (l q).runs; untold = λ e. cc e }
  ListenerStep-Alive (Steps.accepts _ _ _) l q =
      let r = l q in record { runs = r.runs; untold = r.untold }
  ListenerStep-Alive (Steps.forward_fails _ _ _ _) l q =
      let r = l q in record { runs = r.runs; untold = r.untold }
  ListenerStep-Alive (Steps.answers _ _ _ _) l q =
      let r = l q in record { runs = r.runs; untold = r.untold }
  ListenerStep-Alive (Steps.listener_left _ _ _) l q =
      let r = l q in record { runs = r.runs; untold = r.untold }
  ListenerStep-Alive (Steps.listener_closes _ _) l q =
      let r = l q in record { runs = r.runs; untold = r.untold }

  LinkStep-Alive : {peer : SocketAddr} {n o : Net P} → LinkStep peer n o → Alive n → Alive o
  LinkStep-Alive st l q =
      let k = LinkStep-Keeps st in looped (ap looping k.server ∙ q) k.acceptor k.for_acceptor l q

  Steps-Alive :
      {here : ConnectionHdl P} {peer : SocketAddr} {n o : Net P}
      → Steps here peer n o
      → Alive n
      → Alive o
  Steps-Alive rest l q = l q
  Steps-Alive (more ss (Steps.server st)) l q = ServerStep-Alive st (Steps-Alive ss l) q
  Steps-Alive (more ss (Steps.acceptor st)) l q = AcceptorStep-Alive st (Steps-Alive ss l) q
  Steps-Alive (more ss (Steps.listener st)) l q = ListenerStep-Alive st (Steps-Alive ss l) q
  Steps-Alive (more ss (Steps.link st)) l q = LinkStep-Alive st (Steps-Alive ss l) q
  Steps-Alive (more ss (Steps.user_takes _ _)) l q =
      let r = Steps-Alive ss l q in record { runs = r.runs; untold = r.untold }
  Steps-Alive (more ss (Steps.calls _ _)) l q =
      let r = Steps-Alive ss l q in record { runs = r.runs; untold = r.untold }
  Steps-Alive (more ss (Steps.replies _ _)) l q =
      let r = Steps-Alive ss l q in record { runs = r.runs; untold = r.untold }
  Steps-Alive (more ss (Steps.reads _ _)) l q =
      let r = Steps-Alive ss l q in record { runs = r.runs; untold = r.untold }

  -- As long as the server's task is in its loop the acceptor has not ended, whatever the tasks, the
  -- user and the peers did since the start. The acceptor holds a sender of the server's channel, so
  -- the loop does not end by the loss of all senders.
  pub acceptor_outlives :
      (s : Server P) (c : Connection P) (here : ConnectionHdl P) (peer : SocketAddr) (o : Net P)
      → Steps here peer (quiet s c) o
      → looping o.server ≡ true
      → o.acceptor ≢ AcceptorAt.ended
  acceptor_outlives s c here peer o ss q =
      (Steps-Alive ss (λ _. record { runs = λ e. cc e; untold = λ e. cc e }) q).runs
