-- ===== src/Server/OwnSteps.antt =====
-- src/server.rs, src/server/acceptor.rs, src/server/listener.rs and src/server/connection_passer.rs: how
-- long the tasks of a server go on by themselves.
use rrev.Prelude.{ℕ, zero, suc, ◌+◌, ◌*◌, ◌≤◌, ◌<◌, ◌≡◌, ap, false, arith, length}
use rrev.Prelude.Map.{SameEntries-length}
use rrev.Channel.{SocketAddr, SocketAddr-discrete}
use rrev.Scheme.{Parser}
use rrev.Connection.Types.{ConnectionHdl, ConnectionMessage}
use rrev.Connection.Settling.{
  weight-lt, answer_weight-lt, weight-le, weight-user, weight-telling, weight-telling_end,
  held_weight, held_weight-le,
}
use rrev.Server.Waiting.{Net}
use rrev.Server.Steps as Steps
use rrev.Server.Steps.{ServerStep, AcceptorStep, ListenerStep, LinkStep, Step, Steps}
use rrev.Server.Waits.{
  OwnStep, PeerStep, loses_user, connects, server, acceptor, listener, link, handshake, websocket,
}
use rrev.Server.Weight.{
  net_weight, server_weight, listener_weight, stream_weight, call_weight, acceptor_weight,
  passer_weight, kept_by, listener_weight-le, stream_weight-le, place_weight-le, call_weight-le,
  acceptor_weight-le, passer_weight-le, pause-weight, dropping-weight,
}

module _ {P : Parser} where
  server-lt :
      {here : ConnectionHdl P} {n o : Net P} (st : ServerStep here n o)
      → loses_user st ≡ false
      → net_weight o < net_weight n
  server-lt {n = n} (Steps.takes s m h g) _ =
      omega (arith, pause-weight s m, ap server_weight h, ap call_weight g)
  server-lt (Steps.all_left s h g a p) _ = omega (arith, ap server_weight h)
  server-lt {n = n} (Steps.delivers s to m h g) _ =
      omega (arith, ap server_weight h, weight-user n.tasks m)
  server-lt (Steps.deliver_fails s to m h g) _ =
      omega (arith, ap server_weight h, dropping-weight s to)
  server-lt (Steps.delivers_elsewhere s to hdl m h g) _ = omega (arith, ap server_weight h)
  server-lt (Steps.fails_elsewhere s to hdl m h g) _ =
      omega (arith, ap server_weight h, dropping-weight s to)
  server-lt (Steps.tells s e f h g) _ = omega (arith, ap server_weight h)
  server-lt (Steps.tell_fails s e f h) q = cc q
  server-lt (Steps.asks s tx to h g) _ = omega (arith, ap server_weight h, ap (held_weight 2) g)
  server-lt (Steps.ask_fails s tx h g) _ = omega (arith, ap server_weight h)
  server-lt (Steps.answered s tx r h g) _ = omega (arith, ap server_weight h)
  server-lt (Steps.unanswered s tx h g l) _ = omega (arith, ap server_weight h)
  server-lt (Steps.lists s es h same) _ =
      omega
        (arith, ap server_weight h, SameEntries-length SocketAddr-discrete es s.connections same)
  server-lt {n = n} (Steps.closes_here s to left h g) _ =
      omega (arith, ap server_weight h, weight-user n.tasks ConnectionMessage.close)
  server-lt (Steps.gone_here s to left h g) _ = omega (arith, ap server_weight h)
  server-lt (Steps.closes_elsewhere s to hdl left h g) _ = omega (arith, ap server_weight h)
  server-lt (Steps.all_closed s h) _ = omega (arith, ap server_weight h)
  server-lt (Steps.closes_acceptor s h g) _ = omega (arith, ap server_weight h, ap stream_weight g)
  server-lt (Steps.acceptor_gone s h g) _ = omega (arith, ap server_weight h)
  server-lt (Steps.closes_listener s h g) _ =
      omega (arith, ap server_weight h, ap (held_weight 2) g)
  server-lt (Steps.listener_gone s h g) _ = omega (arith, ap server_weight h)

  acceptor-lt : {n o : Net P} → AcceptorStep n o → net_weight o < net_weight n
  acceptor-lt (Steps.takes_stream stream addr h g) =
      omega (arith, ap acceptor_weight h, ap stream_weight g)
  acceptor-lt (Steps.handshake (Steps.upgrades stream addr hdl h)) =
      omega (arith, ap acceptor_weight h)
  acceptor-lt (Steps.handshake (Steps.upgrade_fails stream addr h)) =
      omega (arith, ap acceptor_weight h)
  acceptor-lt (Steps.announces hdl addr h g) = omega (arith, ap acceptor_weight h, ap call_weight g)
  acceptor-lt (Steps.announce_fails hdl addr h g) = omega (arith, ap acceptor_weight h)
  acceptor-lt (Steps.acceptor_left h _ _ _) = omega (arith, ap acceptor_weight h)
  acceptor-lt (Steps.acceptor_closes h g) = omega (arith, ap acceptor_weight h, ap stream_weight g)

  listener-lt :
      {n o : Net P} (st : ListenerStep n o) → connects st ≡ false → net_weight o < net_weight n
  listener-lt (Steps.accepts stream addr h) q = cc q
  listener-lt (Steps.forwards stream addr h g) _ =
      omega (arith, ap listener_weight h, ap stream_weight g)
  listener-lt (Steps.forward_fails stream addr h g) _ = omega (arith, ap listener_weight h)
  listener-lt (Steps.answers to r h g) _ = omega (arith, ap (held_weight 2) g)
  listener-lt (Steps.listener_left h g _) _ = omega (arith, ap listener_weight h)
  listener-lt (Steps.listener_closes h g) _ =
      omega (arith, ap listener_weight h, ap (held_weight 2) g)

  link-lt : {peer : SocketAddr} {n o : Net P} → LinkStep peer n o → net_weight o < net_weight n
  link-lt (Steps.passer_takes e h g) = omega (arith, ap passer_weight h, ap (held_weight 4) g)
  link-lt (Steps.passes e h g) = omega (arith, ap passer_weight h, ap call_weight g)
  link-lt (Steps.pass_fails e h g) = omega (arith, ap passer_weight h)
  link-lt (Steps.passer_ends h g _) = omega (arith, ap passer_weight h)
  link-lt (Steps.works t w) = omega (arith, weight-lt w, held_weight-le 4 t.owner)
  link-lt (Steps.websocket t a) = omega (arith, answer_weight-lt a, held_weight-le 4 t.owner)
  link-lt {n = n} (Steps.tell_lost c e h g) = omega (arith, weight-telling n.tasks c e h)
  link-lt {n = n} (Steps.end_lost c h g) = omega (arith, weight-telling_end n.tasks c h)

  module _ {here : ConnectionHdl P} {peer : SocketAddr} where
    pub own-lt : {n o : Net P} → OwnStep here peer n o → net_weight o < net_weight n
    own-lt (server st q) = server-lt st q
    own-lt (acceptor st _) = acceptor-lt st
    own-lt (listener st q) = listener-lt st q
    own-lt (link st _) = link-lt st

    pub peer-lt : {n o : Net P} → PeerStep here peer n o → net_weight o < net_weight n
    peer-lt {n = n} (handshake st) = acceptor-lt {n = n} (Steps.handshake st)
    peer-lt {n = n} (websocket t a) = link-lt {peer = peer} {n = n} (Steps.websocket t a)

  -- `k` steps of the tasks by themselves, or of peers that let something end.
  pub data OwnSteps (here : ConnectionHdl P) (peer : SocketAddr) : ℕ → Net P → Net P → Type 0 where
    done : (n : Net P) → OwnSteps here peer zero n n
    and_then :
        {k : ℕ} {n o p : Net P}
        → OwnStep here peer n o
        → OwnSteps here peer k o p
        → OwnSteps here peer (suc k) n p
    and_ends :
        {k : ℕ} {n o p : Net P}
        → PeerStep here peer n o
        → OwnSteps here peer k o p
        → OwnSteps here peer (suc k) n p

  OwnSteps-weight :
      {here : ConnectionHdl P} {peer : SocketAddr} {k : ℕ} {n o : Net P}
      → OwnSteps here peer k n o
      → k + net_weight o ≤ net_weight n
  OwnSteps-weight (done n) = omega arith
  OwnSteps-weight (and_then s ss) = omega (arith, own-lt s, OwnSteps-weight ss)
  OwnSteps-weight (and_ends s ss) = omega (arith, peer-lt s, OwnSteps-weight ss)

  pub OwnSteps-le :
      {here : ConnectionHdl P} {peer : SocketAddr} {k : ℕ} {n o : Net P}
      → OwnSteps here peer k n o
      → k ≤ 36 * length (kept_by n.server) + 459
  OwnSteps-le {n = n} ss = omega (
    arith,
    OwnSteps-weight ss,
    place_weight-le n.server,
    acceptor_weight-le n.acceptor,
    listener_weight-le n.listener,
    passer_weight-le n.passer,
    weight-le n.tasks,
    held_weight-le 4 n.tasks.owner,
    call_weight-le n.for_server,
    stream_weight-le n.for_acceptor,
    held_weight-le 2 n.for_listener,
  )
