-- ===== src/Server/Listening.antt =====
-- src/server.rs and src/server/listener.rs: that the listener does not end while the server's task is
-- in its loop.
use rrev.Prelude.{◌≡◌, ◌≢◌, refl, ap, ◌∙◌, true, false, some}
use rrev.Channel.{SocketAddr}
use rrev.Scheme.{Parser}
use rrev.Connection.Types.{Connection, ConnectionHdl}
use rrev.Server.Types.{Server, ListenerMessage}
use rrev.Server.Waiting.{Net, AcceptorAt, ListenerAt}
use rrev.Server.Keeping.{AcceptorStep-Keeps, LinkStep-Keeps}
use rrev.Server.Steps as Steps
use rrev.Server.Steps.{ServerStep, AcceptorStep, ListenerStep, LinkStep, Steps, rest, more}
use rrev.Server.Deadlock.{quiet}
use rrev.Server.Alive.{looping, acceptor_outlives}

-- The listener runs on, and it is not told to close.
record Hearing {P : Parser} (n : Net P) : Type 0 where
  hears : n.listener ≢ ListenerAt.ended
  unclosed : n.for_listener ≢ some ListenerMessage.close

module _ {P : Parser} where
  abbrev Listens : Net P → Type 0
  Listens n = looping n.server ≡ true → Hearing n

  -- A step that leaves the listener and its channel as they are, and starts in the loop.
  looped :
      {n o : Net P}
      → looping n.server ≡ true
      → n.listener ≡ o.listener
      → n.for_listener ≡ o.for_listener
      → Listens n
      → Listens o
  looped h p q l _ =
      let r = l h in record { hears = λ e. r.hears (p ∙ e); unclosed = λ e. r.unclosed (q ∙ e) }

  -- A step of another task.
  aside :
      {n o : Net P}
      → n.server ≡ o.server
      → n.listener ≡ o.listener
      → n.for_listener ≡ o.for_listener
      → Listens n
      → Listens o
  aside s p q l h = looped (ap looping s ∙ h) p q l h

  -- A step that leaves the loop, or is outside it.
  left : {n : Net P} → looping n.server ≡ false → Listens n
  left h q = cc (h, q)

  ServerStep-Listens :
      {here : ConnectionHdl P} {n o : Net P} → ServerStep here n o → Listens n → Listens o
  ServerStep-Listens (Steps.takes _ _ h _) l = looped (ap looping h) refl refl l
  ServerStep-Listens (Steps.all_left _ _ _ _ _) l = left refl
  ServerStep-Listens (Steps.delivers _ _ _ h _) l = looped (ap looping h) refl refl l
  ServerStep-Listens (Steps.deliver_fails _ _ _ h _) l = looped (ap looping h) refl refl l
  ServerStep-Listens (Steps.delivers_elsewhere _ _ _ _ h _) l = looped (ap looping h) refl refl l
  ServerStep-Listens (Steps.fails_elsewhere _ _ _ _ h _) l = looped (ap looping h) refl refl l
  ServerStep-Listens (Steps.tells _ _ _ h _) l = looped (ap looping h) refl refl l
  ServerStep-Listens (Steps.tell_fails _ _ _ h) l = looped (ap looping h) refl refl l
  ServerStep-Listens (Steps.asks _ _ to h _) l =
      λ _. record { hears = (l (ap looping h)).hears; unclosed = λ e. cc e }
  ServerStep-Listens (Steps.ask_fails _ _ h _) l = looped (ap looping h) refl refl l
  ServerStep-Listens (Steps.answered _ _ _ h _) l = looped (ap looping h) refl refl l
  ServerStep-Listens (Steps.unanswered _ _ h _ _) l = looped (ap looping h) refl refl l
  ServerStep-Listens (Steps.lists _ _ _ _) l = left refl
  ServerStep-Listens (Steps.closes_here _ _ _ _ _) l = left refl
  ServerStep-Listens (Steps.gone_here _ _ _ _ _) l = left refl
  ServerStep-Listens (Steps.closes_elsewhere _ _ _ _ _ _) l = left refl
  ServerStep-Listens (Steps.all_closed _ _) l = left refl
  ServerStep-Listens (Steps.closes_acceptor _ _ _) l = left refl
  ServerStep-Listens (Steps.acceptor_gone _ _ _) l = left refl
  ServerStep-Listens (Steps.closes_listener _ _ _) l = left refl
  ServerStep-Listens (Steps.listener_gone _ _ _) l = left refl

  AcceptorStep-Listens : {n o : Net P} → AcceptorStep n o → Listens n → Listens o
  AcceptorStep-Listens st l =
      let k = AcceptorStep-Keeps st in aside k.server k.listener k.for_listener l

  ListenerStep-Listens :
      {n o : Net P}
      → (looping n.server ≡ true → n.acceptor ≢ AcceptorAt.ended)
      → ListenerStep n o
      → Listens n
      → Listens o
  ListenerStep-Listens alive (Steps.accepts _ _ _) l q = record {
    hears = λ e. cc e;
    unclosed = (l q).unclosed;
  }
  ListenerStep-Listens alive (Steps.forwards _ _ _ _) l q = record {
    hears = λ e. cc e;
    unclosed = (l q).unclosed;
  }
  ListenerStep-Listens alive (Steps.forward_fails _ _ _ e) l q = absurd (alive q e)
  ListenerStep-Listens alive (Steps.answers _ _ _ _) l q = record {
    hears = (l q).hears;
    unclosed = λ e. cc e;
  }
  ListenerStep-Listens alive (Steps.listener_left _ _ e) l q = cc (ap looping e, q)
  ListenerStep-Listens alive (Steps.listener_closes _ e) l q = absurd ((l q).unclosed e)

  LinkStep-Listens : {peer : SocketAddr} {n o : Net P} → LinkStep peer n o → Listens n → Listens o
  LinkStep-Listens st l = let k = LinkStep-Keeps st in aside k.server k.listener k.for_listener l

  Steps-Listens :
      (s : Server P) (c : Connection P) {here : ConnectionHdl P} {peer : SocketAddr} {o : Net P}
      → Steps here peer (quiet s c) o
      → Listens o
  Steps-Listens s c rest _ = record { hears = λ e. cc e; unclosed = λ e. cc e }
  Steps-Listens s c (more ss (Steps.server st)) q = ServerStep-Listens st (Steps-Listens s c ss) q
  Steps-Listens s c (more ss (Steps.acceptor st)) q =
      AcceptorStep-Listens st (Steps-Listens s c ss) q
  Steps-Listens s c {here = here} {peer = peer} (more {m = m} ss (Steps.listener st)) q =
      ListenerStep-Listens (acceptor_outlives s c here peer m ss) st (Steps-Listens s c ss) q
  Steps-Listens s c (more ss (Steps.link st)) q = LinkStep-Listens st (Steps-Listens s c ss) q
  Steps-Listens s c (more ss (Steps.user_takes _ _)) q =
      aside refl refl refl (Steps-Listens s c ss) q
  Steps-Listens s c (more ss (Steps.calls _ _)) q = aside refl refl refl (Steps-Listens s c ss) q
  Steps-Listens s c (more ss (Steps.replies _ _)) q = aside refl refl refl (Steps-Listens s c ss) q
  Steps-Listens s c (more ss (Steps.reads _ _)) q = aside refl refl refl (Steps-Listens s c ss) q

  -- As long as the server's task is in its loop the listener has not ended.
  pub listener_outlives :
      (s : Server P) (c : Connection P) (here : ConnectionHdl P) (peer : SocketAddr) (o : Net P)
      → Steps here peer (quiet s c) o
      → looping o.server ≡ true
      → o.listener ≢ ListenerAt.ended
  listener_outlives s c here peer o ss q = (Steps-Listens s c ss q).hears
