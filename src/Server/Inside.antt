-- ===== src/Server/Inside.antt =====
-- src/server.rs, src/server/connection_passer.rs and src/connection.rs: what a server does to the tasks
-- of one of its connections, as steps of those tasks.
use rrev.Prelude.{◌≡◌, refl, ◌⊎◌, inl, inr, subst}
use rrev.Channel.{SocketAddr}
use rrev.Scheme.{Parser}
use rrev.Connection.Types.{ConnectionHdl, ConnectionMessage}
use rrev.Connection.Waiting as Alone
use rrev.Connection.Waiting.{Tasks}
use rrev.Server.Waiting.{Net}
use rrev.Server.Keeping.{AcceptorStep-Keeps, ListenerStep-Keeps}
use rrev.Server.Steps as Steps
use rrev.Server.Steps.{ServerStep, AcceptorStep, ListenerStep, LinkStep, Step, Steps, rest, more}

module _ {P : Parser} where
  -- The tasks stay as they are, or take a step.
  abbrev Follows : Tasks P → Tasks P → Type 0
  Follows t u = (t ≡ u) ⊎ Alone.Step t u

  ServerStep-Follows :
      {here : ConnectionHdl P} {n o : Net P} → ServerStep here n o → Follows n.tasks o.tasks
  ServerStep-Follows (Steps.delivers _ _ m _ h) = inr (Alone.user_sends _ m h)
  ServerStep-Follows (Steps.closes_here _ _ _ _ h) =
      inr (Alone.user_sends _ ConnectionMessage.close h)
  ServerStep-Follows (Steps.takes _ _ _ _) = inl refl
  ServerStep-Follows (Steps.all_left _ _ _ _ _) = inl refl
  ServerStep-Follows (Steps.deliver_fails _ _ _ _ _) = inl refl
  ServerStep-Follows (Steps.delivers_elsewhere _ _ _ _ _ _) = inl refl
  ServerStep-Follows (Steps.fails_elsewhere _ _ _ _ _ _) = inl refl
  ServerStep-Follows (Steps.tells _ _ _ _ _) = inl refl
  ServerStep-Follows (Steps.tell_fails _ _ _ _) = inl refl
  ServerStep-Follows (Steps.asks _ _ _ _ _) = inl refl
  ServerStep-Follows (Steps.ask_fails _ _ _ _) = inl refl
  ServerStep-Follows (Steps.answered _ _ _ _ _) = inl refl
  ServerStep-Follows (Steps.unanswered _ _ _ _ _) = inl refl
  ServerStep-Follows (Steps.lists _ _ _ _) = inl refl
  ServerStep-Follows (Steps.gone_here _ _ _ _ _) = inl refl
  ServerStep-Follows (Steps.closes_elsewhere _ _ _ _ _ _) = inl refl
  ServerStep-Follows (Steps.all_closed _ _) = inl refl
  ServerStep-Follows (Steps.closes_acceptor _ _ _) = inl refl
  ServerStep-Follows (Steps.acceptor_gone _ _ _) = inl refl
  ServerStep-Follows (Steps.closes_listener _ _ _) = inl refl
  ServerStep-Follows (Steps.listener_gone _ _ _) = inl refl

  LinkStep-Follows : {peer : SocketAddr} {n o : Net P} → LinkStep peer n o → Follows n.tasks o.tasks
  LinkStep-Follows (Steps.passer_takes e _ h) = inr (Alone.owner_takes _ e h)
  LinkStep-Follows (Steps.works _ w) = inr (Alone.works w)
  LinkStep-Follows (Steps.websocket _ a) = inr (Alone.answers a)
  LinkStep-Follows (Steps.tell_lost c e h _) = inr (Alone.tell_fails _ c e h)
  LinkStep-Follows (Steps.end_lost c h _) = inr (Alone.tell_end_fails _ c h)
  LinkStep-Follows (Steps.passes _ _ _) = inl refl
  LinkStep-Follows (Steps.pass_fails _ _ _) = inl refl
  LinkStep-Follows (Steps.passer_ends _ _ _) = inl refl

  Step-Follows :
      {here : ConnectionHdl P} {peer : SocketAddr} {n o : Net P}
      → Step here peer n o
      → Follows n.tasks o.tasks
  Step-Follows (Steps.server st) = ServerStep-Follows st
  Step-Follows (Steps.acceptor st) = inl (AcceptorStep-Keeps st).tasks
  Step-Follows (Steps.listener st) = inl (ListenerStep-Keeps st).tasks
  Step-Follows (Steps.link st) = LinkStep-Follows st
  Step-Follows (Steps.replies m h) = inr (Alone.owner_replies _ m h)
  Step-Follows (Steps.reads m h) = inr (Alone.receiver_reads _ m h)
  Step-Follows (Steps.user_takes _ _) = inl refl
  Step-Follows (Steps.calls _ _) = inl refl

  -- A step after others.
  then_step : {t u v : Tasks P} → Alone.Steps t u → Alone.Step u v → Alone.Steps t v
  then_step (Alone.rest _) st = Alone.more _ _ _ st (Alone.rest _)
  then_step (Alone.more _ _ _ s ss) st = Alone.more _ _ _ s (then_step ss st)

  -- Whatever a server, its other tasks, its user and its peers do, the three tasks of one of its
  -- connections take steps that they also take under an owner of their own, in the same order. What
  -- holds of every run of the three tasks holds of them in a server.
  pub Steps-Follows :
      {here : ConnectionHdl P} {peer : SocketAddr} {n o : Net P}
      → Steps here peer n o
      → Alone.Steps n.tasks o.tasks
  Steps-Follows rest = Alone.rest _
  Steps-Follows {n = n} (more ss st) = elim (Step-Follows st) [
    | inl e ↦ subst (λ t. Alone.Steps n.tasks t) e (Steps-Follows ss)
    | inr s ↦ then_step (Steps-Follows ss) s
  ]
