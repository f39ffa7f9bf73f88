-- ===== src/Server/Waits.antt =====
-- src/server.rs, src/server/acceptor.rs, src/server/listener.rs and src/server/connection_passer.rs:
-- the steps that the tasks of a server take by themselves, and what a task waits for that takes none.
use rrev.Prelude.{◌≡◌, ◌≢◌, refl, ◌⊎◌, inl, inr, Bool, true, false, none, Option-cases, Result}
use rrev.Channel.{TcpStream, SocketAddr}
use rrev.Scheme.{Parser}
use rrev.Connection.Types.{ConnectionHdl, ConnectionEvent}
use rrev.Connection.Waiting.{Tasks, Answer}
use rrev.Connection.Halves.{OnSocket}
use rrev.Connection.Stuck.{WaitsForOwner}
use rrev.Server.Types.{AcceptorMessage, ListenerMessage}
use rrev.Server.Waiting.{Net, AcceptorAt, ListenerAt, PasserAt}
use rrev.Server.Steps as Steps
use rrev.Server.Steps.{
  ServerStep, Handshake, AcceptorStep, ListenerStep, LinkStep, Step, Steps, rest, more,
}

-- Whether the server finds its user gone.
abbrev pub loses_user :
    {P : Parser} {here : ConnectionHdl P} {n o : Net P} → ServerStep here n o → Bool
loses_user (Steps.tell_fails _ _ _ _) = true
loses_user _ = false

-- Whether a peer connects.
abbrev pub connects : {P : Parser} {n o : Net P} → ListenerStep n o → Bool
connects (Steps.accepts _ _ _) = true
connects _ = false

-- Whether a handshake with a peer ends.
abbrev pub shakes : {P : Parser} {n o : Net P} → AcceptorStep n o → Bool
shakes (Steps.handshake _) = true
shakes _ = false

-- Whether the websocket lets a write or a close end.
abbrev pub lets_end : {P : Parser} {peer : SocketAddr} {n o : Net P} → LinkStep peer n o → Bool
lets_end (Steps.websocket _ _) = true
lets_end _ = false

-- A step of a task by itself: no peer does anything, and the user does nothing and is not gone. A
-- send to another connection ends some time.
module _ {P : Parser} (here : ConnectionHdl P) (peer : SocketAddr) where
  pub data OwnStep (n : Net P) : Net P → Type 0 where
    server : {o : Net P} (st : ServerStep here n o) → loses_user st ≡ false → OwnStep n o
    acceptor : {o : Net P} (st : AcceptorStep n o) → shakes st ≡ false → OwnStep n o
    listener : {o : Net P} (st : ListenerStep n o) → connects st ≡ false → OwnStep n o
    link : {o : Net P} (st : LinkStep peer n o) → lets_end st ≡ false → OwnStep n o

  -- A peer lets something end that a task waits for.
  pub data PeerStep (n : Net P) : Net P → Type 0 where
    handshake : {o : Net P} → Handshake n o → PeerStep n o
    websocket : (t : Tasks P) → Answer n.tasks t → PeerStep n (record n { tasks = t })

  abbrev pub Moves : Net P → Type 0
  Moves n = (o : Net P) × OwnStep n o

module _ {P : Parser} where
  -- A task waits for a peer: the acceptor for a handshake, or the sender of the connection for the
  -- websocket.
  abbrev pub HeldUp : Net P → Type 0
  HeldUp n =
      ((stream : TcpStream) × (addr : SocketAddr) × (n.acceptor ≡ AcceptorAt.upgrading stream addr))
      ⊎ OnSocket n.tasks

  -- The acceptor has ended, or waits for a message, or to tell the server of a connection.
  pub data AcceptorWaits (n : Net P) : Type 0 where
    gone : n.acceptor ≡ AcceptorAt.ended → AcceptorWaits n
    free : n.acceptor ≡ AcceptorAt.receiving → n.for_acceptor ≡ none → AcceptorWaits n
    announcing :
        (hdl : ConnectionHdl P) (addr : SocketAddr)
        → n.acceptor ≡ AcceptorAt.announcing hdl addr
        → n.for_server ≢ none
        → AcceptorWaits n

  -- The listener likewise, with a stream for the acceptor.
  pub data ListenerWaits (n : Net P) : Type 0 where
    gone : n.listener ≡ ListenerAt.ended → ListenerWaits n
    free : n.listener ≡ ListenerAt.selecting → n.for_listener ≡ none → ListenerWaits n
    forwarding :
        (stream : TcpStream) (from : SocketAddr)
        → n.listener ≡ ListenerAt.forwarding stream from
        → n.for_acceptor ≢ none
        → ListenerWaits n

  -- The passer likewise, with an event for the server.
  pub data PasserWaits (n : Net P) : Type 0 where
    gone : n.passer ≡ PasserAt.ended → PasserWaits n
    free : n.passer ≡ PasserAt.receiving → n.tasks.owner ≡ none → PasserWaits n
    passing :
        (e : ConnectionEvent P)
        → n.passer ≡ PasserAt.passing e
        → n.for_server ≢ none
        → PasserWaits n

module _ {P : Parser} {here : ConnectionHdl P} {peer : SocketAddr} where
  pub acceptor-Moves :
      (n : Net P) (a : AcceptorAt P)
      → n.acceptor ≡ a
      → Moves here peer n ⊎ (HeldUp n ⊎ AcceptorWaits n)
  acceptor-Moves n AcceptorAt.ended h = inr (inr (gone h))
  acceptor-Moves n (AcceptorAt.upgrading stream addr) h = inr (inl (inl (stream, addr, h)))
  acceptor-Moves n AcceptorAt.receiving h = elim (Option-cases n.for_acceptor) [
    | inl e ↦ inr (inr (free h e))
    | inr (AcceptorMessage.close, e) ↦ inl (_, acceptor (Steps.acceptor_closes h e) refl)
    | inr (AcceptorMessage.new_stream stream addr, e) ↦
        inl (_, acceptor (Steps.takes_stream stream addr h e) refl)
  ]
  acceptor-Moves n (AcceptorAt.announcing hdl addr) h = elim (Option-cases n.for_server) [
    | inl e ↦ inl (_, acceptor (Steps.announces hdl addr h e) refl)
    | inr (m, e) ↦ inr (inr (announcing hdl addr h (λ q. cc (q, e))))
  ]

  pub listener-Moves :
      (n : Net P) (a : ListenerAt) → n.listener ≡ a → Moves here peer n ⊎ ListenerWaits n
  listener-Moves n ListenerAt.ended h = inr (gone h)
  listener-Moves n ListenerAt.selecting h = elim (Option-cases n.for_listener) [
    | inl e ↦ inr (free h e)
    | inr (ListenerMessage.close, e) ↦ inl (_, listener (Steps.listener_closes h e) refl)
    | inr (ListenerMessage.get_address to, e) ↦
        inl (_, listener (Steps.answers to (Result.err (record { code = 0 })) h e) refl)
  ]
  listener-Moves n (ListenerAt.forwarding stream from) h = elim (Option-cases n.for_acceptor) [
    | inl e ↦ inl (_, listener (Steps.forwards stream from h e) refl)
    | inr (m, e) ↦ inr (forwarding stream from h (λ q. cc (q, e)))
  ]

  pub passer-Moves : (n : Net P) (a : PasserAt P) → n.passer ≡ a → Moves here peer n ⊎ PasserWaits n
  passer-Moves n PasserAt.ended h = inr (gone h)
  passer-Moves n PasserAt.receiving h = elim (Option-cases n.tasks.owner) [
    | inl e ↦ inr (free h e)
    | inr (e, q) ↦ inl (_, link (Steps.passer_takes e h q) refl)
  ]
  passer-Moves n (PasserAt.passing e) h = elim (Option-cases n.for_server) [
    | inl q ↦ inl (_, link (Steps.passes e h q) refl)
    | inr (m, q) ↦ inr (passing e h (λ x. cc (x, q)))
  ]

  -- A connection that waits for its owner waits for a passer that waits for the server.
  pub owner-Moves :
      (n : Net P)
      → WaitsForOwner n.tasks
      → PasserWaits n
      → Moves here peer n
        ⊎ ((e : ConnectionEvent P) × (n.passer ≡ PasserAt.passing e) × (n.for_server ≢ none))
  owner-Moves n w (free h e) = absurd (w.owner_full e)
  owner-Moves n w (passing e h q) = inr (e, h, q)
  owner-Moves n w (gone h) =
      let (c, t) = w.tells_owner in
      elim t [
        | inl (e, q) ↦ inl (_, link (Steps.tell_lost c e q h) refl)
        | inr q ↦ inl (_, link (Steps.end_lost c q h) refl)
      ]
