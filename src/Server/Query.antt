-- ===== src/Server/Query.antt =====
-- src/server.rs and src/server/listener.rs: where a query of the listen address is, between the
-- server and its listener.
use rrev.Prelude.{
  ◌≡◌, ◌≢◌, refl, sym, ap, ◌∙◌, Bool, true, false, none, some, arith, ControlFlow, go_on, stop,
}
use rrev.Channel.{OneshotSender, SocketAddr}
use rrev.Scheme.{Parser}
use rrev.Connection.Types.{ConnectionHdl, ConnectionEvent}
use rrev.Server.Types.{Server, ServerMessage, ListenerMessage}
use rrev.Server.Waiting.{Net, ServerAt, ListenerAt, pause, untold}
use rrev.Server.Keeping.{AcceptorStep-Keeps, LinkStep-Keeps}
use rrev.Server.Steps as Steps
use rrev.Server.Steps.{ServerStep, AcceptorStep, ListenerStep, LinkStep, Step, Steps, rest, more}

-- Whether the server waits for the answer of the listener.
abbrev pub awaits : {P : Parser} → ServerAt P → Bool
awaits (ServerAt.awaiting _ _) = true
awaits _ = false

-- There is no query; or it is on the way to the listener; or its answer is on the way back. If the
-- server or the listener has ended there is no more to say.
pub data Query {P : Parser} (n : Net P) : Type 0 where
  idle : awaits n.server ≡ false → n.for_listener ≡ none → n.local ≡ none → Query n
  asked :
      (to : OneshotSender _)
      → awaits n.server ≡ true
      → n.for_listener ≡ some (ListenerMessage.get_address to)
      → n.local ≡ none
      → Query n
  replied : awaits n.server ≡ true → n.for_listener ≡ none → n.local ≢ none → Query n
  over : n.server ≡ ServerAt.ended → Query n
  unheard : n.listener ≡ ListenerAt.ended → Query n

module _ {P : Parser} where
  awaits-pause : (s : Server P) (m : ServerMessage P) → awaits (pause s m) ≡ false
  unfolding pause
  awaits-pause s ServerMessage.close = refl
  awaits-pause s (ServerMessage.get_listen_address tx) = refl
  awaits-pause s (ServerMessage.get_clients tx) = refl
  awaits-pause s (ServerMessage.new_connection hdl addr) = ground arith
  awaits-pause s (ServerMessage.connection_event from ConnectionEvent.close) = refl
  awaits-pause s (ServerMessage.connection_event from (ConnectionEvent.event_message e)) = refl
  awaits-pause s (ServerMessage.connection_event from (ConnectionEvent.request_message r)) = refl
  awaits-pause s (ServerMessage.send_request to tx q) = ground arith
  awaits-pause s (ServerMessage.send_event to e) = ground arith

  awaits-untold : (s : Server P) (f : ControlFlow) → awaits (untold s f) ≡ false
  awaits-untold s go_on = refl
  awaits-untold s stop = refl

  -- A step from where the server does not wait for an answer to where it does not.
  elsewhere :
      {n o : Net P} {a : ServerAt P}
      → n.server ≡ a
      → awaits a ≡ false
      → a ≢ ServerAt.ended
      → awaits o.server ≡ false
      → n.listener ≡ o.listener
      → n.for_listener ≡ o.for_listener
      → n.local ≡ o.local
      → Query n
      → Query o
  elsewhere h b live r p q t (idle x y z) = idle r (sym q ∙ y) (sym t ∙ z)
  elsewhere h b live r p q t (asked to x y z) = cc (ap awaits h, b, x)
  elsewhere h b live r p q t (replied x y z) = cc (ap awaits h, b, x)
  elsewhere h b live r p q t (over x) = absurd (live (sym h ∙ x))
  elsewhere h b live r p q t (unheard x) = unheard (sym p ∙ x)

  -- A step that leaves the server and what is between it and the listener as they are.
  aside :
      {n o : Net P}
      → n.server ≡ o.server
      → (n.listener ≡ ListenerAt.ended → o.listener ≡ ListenerAt.ended)
      → n.for_listener ≡ o.for_listener
      → n.local ≡ o.local
      → Query n
      → Query o
  aside e p q t (idle x y z) = idle (sym (ap awaits e) ∙ x) (sym q ∙ y) (sym t ∙ z)
  aside e p q t (asked to x y z) = asked to (sym (ap awaits e) ∙ x) (sym q ∙ y) (sym t ∙ z)
  aside e p q t (replied x y z) = replied (sym (ap awaits e) ∙ x) (sym q ∙ y) (λ h. z (t ∙ h))
  aside e p q t (over x) = over (sym e ∙ x)
  aside e p q t (unheard x) = unheard (p x)

  ServerStep-Query :
      {here : ConnectionHdl P} {n o : Net P} → ServerStep here n o → Query n → Query o
  ServerStep-Query (Steps.takes s m h _) q =
      elsewhere h refl (λ e. cc e) (awaits-pause s m) refl refl refl q
  ServerStep-Query (Steps.all_left _ h _ _ _) q = elsewhere h refl (λ e. cc e) refl refl refl refl q
  ServerStep-Query (Steps.delivers _ _ _ h _) q = elsewhere h refl (λ e. cc e) refl refl refl refl q
  ServerStep-Query (Steps.deliver_fails _ _ _ h _) q =
      elsewhere h refl (λ e. cc e) refl refl refl refl q
  ServerStep-Query (Steps.delivers_elsewhere _ _ _ _ h _) q =
      elsewhere h refl (λ e. cc e) refl refl refl refl q
  ServerStep-Query (Steps.fails_elsewhere _ _ _ _ h _) q =
      elsewhere h refl (λ e. cc e) refl refl refl refl q
  ServerStep-Query (Steps.tells _ _ _ h _) q = elsewhere h refl (λ e. cc e) refl refl refl refl q
  ServerStep-Query (Steps.tell_fails s _ f h) q =
      elsewhere h refl (λ e. cc e) (awaits-untold s f) refl refl refl q
  ServerStep-Query (Steps.asks _ _ to h _) (idle x y z) = asked to refl refl z
  ServerStep-Query (Steps.asks _ _ _ h _) (asked to x y z) = cc (ap awaits h, x)
  ServerStep-Query (Steps.asks _ _ _ h _) (replied x y z) = cc (ap awaits h, x)
  ServerStep-Query (Steps.asks _ _ _ h _) (over x) = cc (h, x)
  ServerStep-Query (Steps.asks _ _ _ h _) (unheard x) = unheard x
  ServerStep-Query (Steps.ask_fails _ _ h e) q = unheard e
  ServerStep-Query (Steps.answered _ _ _ h _) (idle x y z) = cc (ap awaits h, x)
  ServerStep-Query (Steps.answered _ _ _ h e) (asked to x y z) = cc (e, z)
  ServerStep-Query (Steps.answered _ _ _ h _) (replied x y z) = idle refl y refl
  ServerStep-Query (Steps.answered _ _ _ h _) (over x) = cc (h, x)
  ServerStep-Query (Steps.answered _ _ _ h _) (unheard x) = unheard x
  ServerStep-Query (Steps.unanswered _ _ h e _) q = unheard e
  ServerStep-Query (Steps.lists _ _ h _) q = elsewhere h refl (λ e. cc e) refl refl refl refl q
  ServerStep-Query (Steps.closes_here _ _ _ h _) q =
      elsewhere h refl (λ e. cc e) refl refl refl refl q
  ServerStep-Query (Steps.gone_here _ _ _ h _) q =
      elsewhere h refl (λ e. cc e) refl refl refl refl q
  ServerStep-Query (Steps.closes_elsewhere _ _ _ _ h _) q =
      elsewhere h refl (λ e. cc e) refl refl refl refl q
  ServerStep-Query (Steps.all_closed _ h) q = elsewhere h refl (λ e. cc e) refl refl refl refl q
  ServerStep-Query (Steps.closes_acceptor _ h _) q =
      elsewhere h refl (λ e. cc e) refl refl refl refl q
  ServerStep-Query (Steps.acceptor_gone _ h _) q =
      elsewhere h refl (λ e. cc e) refl refl refl refl q
  ServerStep-Query (Steps.closes_listener _ h _) q = over refl
  ServerStep-Query (Steps.listener_gone _ h _) q = over refl

  AcceptorStep-Query : {n o : Net P} → AcceptorStep n o → Query n → Query o
  AcceptorStep-Query st q =
      let k = AcceptorStep-Keeps st in
      aside k.server (λ e. sym k.listener ∙ e) k.for_listener k.local q

  ListenerStep-Query : {n o : Net P} → ListenerStep n o → Query n → Query o
  ListenerStep-Query (Steps.accepts _ _ h) q = aside refl (λ e. cc (h, e)) refl refl q
  ListenerStep-Query (Steps.forwards _ _ h _) q = aside refl (λ e. cc (h, e)) refl refl q
  ListenerStep-Query (Steps.forward_fails _ _ _ _) q = unheard refl
  ListenerStep-Query (Steps.answers _ _ h e) (idle x y z) = cc (e, y)
  ListenerStep-Query (Steps.answers _ _ h e) (asked to x y z) = replied x refl (λ q. cc q)
  ListenerStep-Query (Steps.answers _ _ h e) (replied x y z) = cc (e, y)
  ListenerStep-Query (Steps.answers _ _ h e) (over x) = over x
  ListenerStep-Query (Steps.answers _ _ h e) (unheard x) = cc (h, x)
  ListenerStep-Query (Steps.listener_left _ _ _) q = unheard refl
  ListenerStep-Query (Steps.listener_closes _ _) q = unheard refl

  LinkStep-Query : {peer : SocketAddr} {n o : Net P} → LinkStep peer n o → Query n → Query o
  LinkStep-Query st q =
      let k = LinkStep-Keeps st in aside k.server (λ e. sym k.listener ∙ e) k.for_listener k.local q

  Step-Query :
      {here : ConnectionHdl P} {peer : SocketAddr} {n o : Net P}
      → Step here peer n o
      → Query n
      → Query o
  Step-Query (Steps.server st) q = ServerStep-Query st q
  Step-Query (Steps.acceptor st) q = AcceptorStep-Query st q
  Step-Query (Steps.listener st) q = ListenerStep-Query st q
  Step-Query (Steps.link st) q = LinkStep-Query st q
  Step-Query (Steps.user_takes _ _) q = aside refl (λ e. e) refl refl q
  Step-Query (Steps.calls _ _) q = aside refl (λ e. e) refl refl q
  Step-Query (Steps.replies _ _) q = aside refl (λ e. e) refl refl q
  Step-Query (Steps.reads _ _) q = aside refl (λ e. e) refl refl q

  pub Steps-Query :
      {here : ConnectionHdl P} {peer : SocketAddr} {n o : Net P}
      → Steps here peer n o
      → Query n
      → Query o
  Steps-Query rest q = q
  Steps-Query (more ss st) q = Step-Query st (Steps-Query ss q)
