-- ===== src/Server/Keeping.antt =====
-- src/server/acceptor.rs, src/server/listener.rs and src/server/connection_passer.rs: what a step of each
-- of these tasks leaves as it is.
use rrev.Prelude.{◌≡◌, refl}
use rrev.Channel.{SocketAddr}
use rrev.Scheme.{Parser}
use rrev.Server.Waiting.{Net}
use rrev.Server.TaskSteps.{
  AcceptorStep, ListenerStep, LinkStep, takes_stream, handshake, websocket, upgrades, upgrade_fails,
  announces, announce_fails, acceptor_left, acceptor_closes, accepts, forwards, forward_fails,
  answers, listener_left, listener_closes, passer_takes, passes, pass_fails, passer_ends, works,
  tell_lost, end_lost,
}

module _ {P : Parser} where
  -- The acceptor writes its channel and the server's.
  pub record AcceptorKeeps (n o : Net P) : Type 0 where
    pub server : n.server ≡ o.server
    pub listener : n.listener ≡ o.listener
    pub passer : n.passer ≡ o.passer
    pub tasks : n.tasks ≡ o.tasks
    pub for_user : n.for_user ≡ o.for_user
    pub for_listener : n.for_listener ≡ o.for_listener
    pub local : n.local ≡ o.local

  -- The listener writes its channel, the acceptor's, and the oneshot of a query.
  pub record ListenerKeeps (n o : Net P) : Type 0 where
    pub server : n.server ≡ o.server
    pub acceptor : n.acceptor ≡ o.acceptor
    pub passer : n.passer ≡ o.passer
    pub tasks : n.tasks ≡ o.tasks
    pub for_server : n.for_server ≡ o.for_server
    pub for_user : n.for_user ≡ o.for_user

  -- The passer and the tasks of its connection write the server's channel.
  pub record LinkKeeps (n o : Net P) : Type 0 where
    pub server : n.server ≡ o.server
    pub acceptor : n.acceptor ≡ o.acceptor
    pub listener : n.listener ≡ o.listener
    pub for_user : n.for_user ≡ o.for_user
    pub for_acceptor : n.for_acceptor ≡ o.for_acceptor
    pub for_listener : n.for_listener ≡ o.for_listener
    pub local : n.local ≡ o.local

  pub AcceptorStep-Keeps : {n o : Net P} → AcceptorStep n o → AcceptorKeeps n o
  AcceptorStep-Keeps (takes_stream _ _ _ _) = record {
    server = refl;
    listener = refl;
    passer = refl;
    tasks = refl;
    for_user = refl;
    for_listener = refl;
    local = refl;
  }
  AcceptorStep-Keeps (handshake (upgrades _ _ _ _)) = record {
    server = refl;
    listener = refl;
    passer = refl;
    tasks = refl;
    for_user = refl;
    for_listener = refl;
    local = refl;
  }
  AcceptorStep-Keeps (handshake (upgrade_fails _ _ _)) = record {
    server = refl;
    listener = refl;
    passer = refl;
    tasks = refl;
    for_user = refl;
    for_listener = refl;
    local = refl;
  }
  AcceptorStep-Keeps (announces _ _ _ _) = record {
    server = refl;
    listener = refl;
    passer = refl;
    tasks = refl;
    for_user = refl;
    for_listener = refl;
    local = refl;
  }
  AcceptorStep-Keeps (announce_fails _ _ _ _) = record {
    server = refl;
    listener = refl;
    passer = refl;
    tasks = refl;
    for_user = refl;
    for_listener = refl;
    local = refl;
  }
  AcceptorStep-Keeps (acceptor_left _ _ _ _) = record {
    server = refl;
    listener = refl;
    passer = refl;
    tasks = refl;
    for_user = refl;
    for_listener = refl;
    local = refl;
  }
  AcceptorStep-Keeps (acceptor_closes _ _) = record {
    server = refl;
    listener = refl;
    passer = refl;
    tasks = refl;
    for_user = refl;
    for_listener = refl;
    local = refl;
  }

  pub ListenerStep-Keeps : {n o : Net P} → ListenerStep n o → ListenerKeeps n o
  ListenerStep-Keeps (accepts _ _ _) = record {
    server = refl;
    acceptor = refl;
    passer = refl;
    tasks = refl;
    for_server = refl;
    for_user = refl;
  }
  ListenerStep-Keeps (forwards _ _ _ _) = record {
    server = refl;
    acceptor = refl;
    passer = refl;
    tasks = refl;
    for_server = refl;
    for_user = refl;
  }
  ListenerStep-Keeps (forward_fails _ _ _ _) = record {
    server = refl;
    acceptor = refl;
    passer = refl;
    tasks = refl;
    for_server = refl;
    for_user = refl;
  }
  ListenerStep-Keeps (answers _ _ _ _) = record {
    server = refl;
    acceptor = refl;
    passer = refl;
    tasks = refl;
    for_server = refl;
    for_user = refl;
  }
  ListenerStep-Keeps (listener_left _ _ _) = record {
    server = refl;
    acceptor = refl;
    passer = refl;
    tasks = refl;
    for_server = refl;
    for_user = refl;
  }
  ListenerStep-Keeps (listener_closes _ _) = record {
    server = refl;
    acceptor = refl;
    passer = refl;
    tasks = refl;
    for_server = refl;
    for_user = refl;
  }

  pub LinkStep-Keeps : {peer : SocketAddr} {n o : Net P} → LinkStep peer n o → LinkKeeps n o
  LinkStep-Keeps (passer_takes _ _ _) = record {
    server = refl;
    acceptor = refl;
    listener = refl;
    for_user = refl;
    for_acceptor = refl;
    for_listener = refl;
    local = refl;
  }
  LinkStep-Keeps (passes _ _ _) = record {
    server = refl;
    acceptor = refl;
    listener = refl;
    for_user = refl;
    for_acceptor = refl;
    for_listener = refl;
    local = refl;
  }
  LinkStep-Keeps (pass_fails _ _ _) = record {
    server = refl;
    acceptor = refl;
    listener = refl;
    for_user = refl;
    for_acceptor = refl;
    for_listener = refl;
    local = refl;
  }
  LinkStep-Keeps (passer_ends _ _ _) = record {
    server = refl;
    acceptor = refl;
    listener = refl;
    for_user = refl;
    for_acceptor = refl;
    for_listener = refl;
    local = refl;
  }
  LinkStep-Keeps (works _ _) = record {
    server = refl;
    acceptor = refl;
    listener = refl;
    for_user = refl;
    for_acceptor = refl;
    for_listener = refl;
    local = refl;
  }
  LinkStep-Keeps (websocket _ _) = record {
    server = refl;
    acceptor = refl;
    listener = refl;
    for_user = refl;
    for_acceptor = refl;
    for_listener = refl;
    local = refl;
  }
  LinkStep-Keeps (tell_lost _ _ _ _) = record {
    server = refl;
    acceptor = refl;
    listener = refl;
    for_user = refl;
    for_acceptor = refl;
    for_listener = refl;
    local = refl;
  }
  LinkStep-Keeps (end_lost _ _ _) = record {
    server = refl;
    acceptor = refl;
    listener = refl;
    for_user = refl;
    for_acceptor = refl;
    for_listener = refl;
    local = refl;
  }
