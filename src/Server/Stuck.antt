-- ===== src/Server/Stuck.antt =====
-- src/server.rs, src/server/acceptor.rs, src/server/listener.rs, src/server/connection_passer.rs and
-- src/connection.rs: that the tasks of a server go on, or stand at one of the places of Settled.
use rrev.Prelude.{
  zero, suc, arith, ℕ, ◌+◌, ◌*◌, ◌≤◌, length, ◌≡◌, ◌≢◌, refl, ap, ◌∙◌, ◌⊎◌, inl, inr, true, [], ◌∷◌,
  Option-cases,
}
use rrev.Channel.{SocketAddr}
use rrev.Scheme.{Parser}
use rrev.Connection.Types.{ConnectionHdl-discrete, Connection, ConnectionHdl}
use rrev.Connection.Waiting.{write_ends, close_ends}
use rrev.Connection.OneClose.{Steps-Untold}
use rrev.Connection.Stuck as Alone
use rrev.Connection.Stuck.{Goes-or_Settled}
use rrev.Server.Types.{Server}
use rrev.Server.Waiting.{Net, ServerAt, AcceptorAt, ListenerAt}
use rrev.Server.Steps as Steps
use rrev.Server.Steps.{Step, ServerStep, Steps}
use rrev.Server.Deadlock.{quiet}
use rrev.Server.Alive.{looping, acceptor_outlives}
use rrev.Server.Listening.{listener_outlives}
use rrev.Server.Query.{Query, Steps-Query, awaits}
use rrev.Server.Inside.{Steps-Follows}
use rrev.Server.Waits.{
  OwnStep, PeerStep, HeldUp, Moves, handshake, websocket, AcceptorWaits, ListenerWaits, PasserWaits,
  acceptor-Moves, listener-Moves, passer-Moves, server, acceptor, listener, link,
}
use rrev.Server.Standing.{
  idle-Moves, over-Moves, sending-Moves, asking-Moves, awaiting-Moves, closing-Moves,
}
use rrev.Server.Weight.{kept_by, net_weight}
use rrev.Server.OwnSteps.{OwnSteps, OwnSteps-le, own-lt, peer-lt, done, and_then, and_ends}
use rrev.Server.Settled as Settled
use rrev.Server.Settled.{SendsHere, LinkRests, Settled, traversal}

module _ {P : Parser} {here : ConnectionHdl P} {peer : SocketAddr} where
  server-Moves :
      (n : Net P)
      → (looping n.server ≡ true → n.acceptor ≢ AcceptorAt.ended)
      → (looping n.server ≡ true → n.listener ≢ ListenerAt.ended)
      → Query n
      → AcceptorWaits n
      → ListenerWaits n
      → PasserWaits n
      → Alone.Settled n.tasks
      → (v : ServerAt P) → n.server ≡ v
      → Moves here peer n ⊎ Settled here n
  server-Moves n live hears q a l p t (ServerAt.receiving s) h = elim (Option-cases n.for_server) [
    | inl e ↦ idle-Moves n s h (live (ap looping h)) (hears (ap looping h)) a l p t e
    | inr (m, e) ↦ inl (_, server (Steps.takes s m h e) refl)
  ]
  server-Moves n live hears q a l p t (ServerAt.sending s to hdl m) h =
      elim (ConnectionHdl-discrete hdl here) [
        | no other ↦ inl (_, server (Steps.delivers_elsewhere s to hdl m h other) refl)
        | yes same ↦
            let h' : n.server ≡ ServerAt.sending s to here m =
              h ∙ ap (λ x. ServerAt.sending s to x m) same in
            sending-Moves n (Settled.message s to m h')
              (λ e. (_, server (Steps.delivers s to m h' e) refl))
              (λ e. (_, server (Steps.deliver_fails s to m h' e) refl)) p t
      ]
  server-Moves n live hears q a l p t (ServerAt.telling s e f) h = elim (Option-cases n.for_user) [
    | inl none_there ↦ inl (_, server (Steps.tells s e f h none_there) refl)
    | inr (x, there) ↦ inr (Settled.untaken s e f h (λ r. cc (r, there)))
  ]
  server-Moves n live hears q a l p t (ServerAt.asking s tx) h = inl (
      asking-Moves n (ap awaits h) (λ e. cc (h, e)) q
        (λ e. (_, server (Steps.asks s tx (record { slot = 0 }) h e) refl))
        (λ e. (_, server (Steps.ask_fails s tx h e) refl)))
  server-Moves n live hears q a l p t (ServerAt.awaiting s tx) h = elim (Option-cases n.local) [
    | inl e ↦ awaiting-Moves n s tx h e (live (ap looping h)) a l q
    | inr (r, e) ↦ inl (_, server (Steps.answered s tx r h e) refl)
  ]
  server-Moves n live hears q a l p t (ServerAt.leaving s) h =
      let (es, same) = traversal s.connections in inl (_, server (Steps.lists s es h same) refl)
  server-Moves n live hears q a l p t (ServerAt.closing s []) h =
      inl (_, server (Steps.all_closed s h) refl)
  server-Moves n live hears q a l p t (ServerAt.closing s ((to, hdl) ∷ left)) h =
      elim (ConnectionHdl-discrete hdl here) [
        | no other ↦ inl (_, server (Steps.closes_elsewhere s to hdl left h other) refl)
        | yes same ↦
            let h' : n.server ≡ ServerAt.closing s ((to, here) ∷ left) =
              h ∙ ap (λ x. ServerAt.closing s ((to, x) ∷ left)) same in
            sending-Moves n (Settled.close s to left h')
              (λ e. (_, server (Steps.closes_here s to left h' e) refl))
              (λ e. (_, server (Steps.gone_here s to left h' e) refl)) p t
      ]
  server-Moves n live hears q a l p t (ServerAt.closing_acceptor s) h =
      elim (Option-cases n.for_acceptor) [
        | inl e ↦ inl (_, server (Steps.closes_acceptor s h e) refl)
        | inr (m, e) ↦ closing-Moves n s h (λ r. cc (r, e)) a
      ]
  server-Moves n live hears q a l p t (ServerAt.closing_listener s) h = inl (
      asking-Moves n (ap awaits h) (λ e. cc (h, e)) q
        (λ e. (_, server (Steps.closes_listener s h e) refl))
        (λ e. (_, server (Steps.listener_gone s h e) refl)))
  server-Moves n live hears q a l p t ServerAt.ended h = over-Moves n h a l p t

  Moves-or_Settled :
      (s : Server P) (c : Connection P) {n : Net P}
      → Steps here peer (quiet s c) n
      → Moves here peer n ⊎ (HeldUp n ⊎ Settled here n)
  Moves-or_Settled s c {n = n} ss = elim (acceptor-Moves n n.acceptor refl) [
    | inl g ↦ inl g
    | inr (inl up) ↦ inr (inl up)
    | inr (inr a) ↦ elim (listener-Moves n n.listener refl) [
      | inl g ↦ inl g
      | inr l ↦ elim (passer-Moves n n.passer refl) [
        | inl g ↦ inl g
        | inr p ↦
            elim (Goes-or_Settled n.tasks
              (Steps-Untold (Steps-Follows ss) (record { has_room = λ _. refl }))) [
                | inl (t, w) ↦ inl (_, link (Steps.works t w) refl)
                | inr (inl up) ↦ inr (inl (inr up))
                | inr (inr t) ↦
                    elim (server-Moves n (acceptor_outlives s c here peer n ss)
                      (listener_outlives s c here peer n ss)
                      (Steps-Query ss (Query.idle refl refl refl)) a l p t n.server refl) [
                        | inl g ↦ inl g
                        | inr at ↦ inr (inr at)
                      ]
              ]
      ]
    ]
  ]

  own_step : {n o : Net P} → OwnStep here peer n o → Step here peer n o
  own_step (server st _) = Steps.server st
  own_step (acceptor st _) = Steps.acceptor st
  own_step (listener st _) = Steps.listener st
  own_step (link st _) = Steps.link st

  peer_step : {n o : Net P} → PeerStep here peer n o → Step here peer n o
  peer_step (handshake st) = Steps.acceptor (Steps.handshake st)
  peer_step (websocket t a) = Steps.link (Steps.websocket t a)

  own_steps :
      {k : ℕ} {m n o : Net P} → Steps here peer m n → OwnSteps here peer k n o → Steps here peer m o
  own_steps ss (done n) = ss
  own_steps ss (and_then st sts) = own_steps (Steps.more ss (own_step st)) sts
  own_steps ss (and_ends st sts) = own_steps (Steps.more ss (peer_step st)) sts

  -- A peer that holds up a task can let it go on.
  lets_go : (n : Net P) → HeldUp n → (o : Net P) × PeerStep here peer n o
  lets_go n (inl (stream, addr, h)) = (_, handshake (Steps.upgrade_fails stream addr h))
  lets_go n (inr (inl h)) = (_, websocket _ (write_ends n.tasks h))
  lets_go n (inr (inr h)) = (_, websocket _ (close_ends n.tasks h))

  -- On fuel that what is left to do bounds.
  settles :
      (fuel : ℕ) (s : Server P) (c : Connection P) {n : Net P}
      → Steps here peer (quiet s c) n
      → net_weight n ≤ fuel
      → (k : ℕ) × (o : Net P) × OwnSteps here peer k n o × Settled here o
  settles zero s c {n = n} ss small = elim (Moves-or_Settled s c ss) [
    | inl (o, st) ↦ absurd (omega (arith, own-lt st, small))
    | inr (inl up) ↦ absurd (omega (arith, peer-lt (lets_go n up).1, small))
    | inr (inr at) ↦ (0, n, done n, at)
  ]
  settles (suc f) s c {n = n} ss small = elim (Moves-or_Settled s c ss) [
    | inl (o, st) ↦
        let (k, p, sts, at) =
          settles f s c (Steps.more ss (own_step st)) (omega (arith, own-lt st, small)) in
        (suc k, p, and_then st sts, at)
    | inr (inl up) ↦
        let (o, st) = lets_go n up in
        let (k, p, sts, at) =
          settles f s c (Steps.more ss (peer_step st)) (omega (arith, peer-lt st, small)) in
        (suc k, p, and_ends st sts, at)
    | inr (inr at) ↦ (0, n, done n, at)
  ]

  -- From any state that the tasks of a server reach, whatever the user and the peers did so far,
  -- they take at most 36 steps for each connection that the server keeps, and 459 more, if no peer
  -- connects or sends, the user does nothing and it is not gone, where the end of a handshake or of
  -- a write or close of a websocket, which needs a peer, counts as a step too. Wherever no task can
  -- take a step by itself, the acceptor waits for a handshake, or the sender of the connection for
  -- its websocket, or they stand at one of seven places; and whichever steps they took, they can go
  -- on until they stand at one of these, if peers let handshakes, writes and closes end. The server,
  -- the acceptor and the listener wait for messages, or all three have ended; at both, the passer
  -- and the tasks of the connection wait for messages or have ended, or the connection and its
  -- sender wait for each other. The server waits until its user takes an event. Or the server is in
  -- one of four circles of tasks that wait for each other: through the connection and its passer,
  -- through the connection, which waits for its sender, through the listener and the acceptor, or
  -- through the acceptor alone.
  pub OwnSteps-Settled :
      (s : Server P) (c : Connection P) {k : ℕ} {n o : Net P}
      → Steps here peer (quiet s c) n
      → OwnSteps here peer k n o
      → (k ≤ 36 * length (kept_by n.server) + 459)
        × (Moves here peer o ⊎ (HeldUp o ⊎ Settled here o))
        × ((j : ℕ) × (p : Net P) × OwnSteps here peer j o p × Settled here p)
  OwnSteps-Settled s c {o = o} ss ws =
      let all = own_steps ss ws in
      (OwnSteps-le ws, Moves-or_Settled s c all, settles (net_weight o) s c all (omega arith))
