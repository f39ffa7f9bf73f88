-- ===== src/Server/Standing.antt =====
-- src/server.rs, src/server/acceptor.rs, src/server/listener.rs, src/server/connection_passer.rs and
-- src/connection.rs: the waits of a server's task, one by one: it goes on, or stands where Settled says.
use rrev.Prelude.{◌≡◌, ◌≢◌, refl, ap, ◌⊎◌, inl, inr, false, none, Option-cases}
use rrev.Channel.{SocketAddr}
use rrev.Scheme.{Parser}
use rrev.Connection.Types.{ConnectionHdl, ConnectionEvent}
use rrev.Connection.Waiting.{ConnectionAt}
use rrev.Connection.Stuck as Alone
use rrev.Connection.Stuck.{Goes-or_Settled}
use rrev.Server.Types.{Server}
use rrev.Server.Waiting.{Net, ServerAt, AcceptorAt, ListenerAt, PasserAt}
use rrev.Server.Steps as Steps
use rrev.Server.Steps.{ServerStep, Steps}
use rrev.Server.Query.{Query, awaits}
use rrev.Server.Waits.{
  OwnStep, Moves, AcceptorWaits, ListenerWaits, PasserWaits, acceptor-Moves, listener-Moves,
  passer-Moves, owner-Moves, server, acceptor, listener, link,
}
use rrev.Server.Waits as Waits
use rrev.Server.Settled.{SendsHere, LinkRests, Settled}

module _ {P : Parser} {here : ConnectionHdl P} {peer : SocketAddr} where
  pub link-Moves :
      (n : Net P)
      → ((e : ConnectionEvent P) → n.passer ≡ PasserAt.passing e → Moves here peer n)
      → PasserWaits n
      → Alone.Settled n.tasks
      → Moves here peer n ⊎ LinkRests here n
  link-Moves n pass p (inr (inl w)) = elim (owner-Moves n w p) [
    | inl g ↦ inl g
    | inr (e, h, full) ↦ inl (pass e h)
  ]
  link-Moves n pass (Waits.passing e h full) t = inl (pass e h)
  link-Moves n pass (Waits.gone h) (inl t) =
      inr (record { passer_rests = inl h; tasks_rest = inl t })
  link-Moves n pass (Waits.gone h) (inr (inr t)) =
      inr (record { passer_rests = inl h; tasks_rest = inr t })
  link-Moves n pass (Waits.free h e) (inl t) =
      inr (record { passer_rests = inr (h, e); tasks_rest = inl t })
  link-Moves n pass (Waits.free h e) (inr (inr t)) =
      inr (record { passer_rests = inr (h, e); tasks_rest = inr t })

  -- At a send to the connection: `deliver` if its channel has room, `fail` if it has ended.
  pub sending-Moves :
      (n : Net P)
      → SendsHere here n
      → (n.tasks.user ≡ none → Moves here peer n)
      → (n.tasks.connection ≡ ConnectionAt.ended → Moves here peer n)
      → PasserWaits n
      → Alone.Settled n.tasks
      → Moves here peer n ⊎ Settled here n
  sending-Moves n at deliver fail p t = elim (Option-cases n.tasks.user) [
    | inl e ↦ inl (deliver e)
    | inr (m, e) ↦ elim t [
      | inl r ↦ elim r.connection_rests [
        | inl h ↦ inl (fail h)
        | inr (c, h, none_there, _) ↦ inl (deliver none_there)
      ]
      | inr (inl w) ↦ elim (owner-Moves n w p) [
        | inl g ↦ inl g
        | inr (x, h, full) ↦ inr (Settled.flooded x at (λ q. cc (q, e)) w h full)
      ]
      | inr (inr l) ↦ inr (Settled.locked at (λ q. cc (q, e)) l)
    ]
  ]

  pub idle-Moves :
      (n : Net P) (s : Server P)
      → n.server ≡ ServerAt.receiving s
      → n.acceptor ≢ AcceptorAt.ended
      → n.listener ≢ ListenerAt.ended
      → AcceptorWaits n
      → ListenerWaits n
      → PasserWaits n
      → Alone.Settled n.tasks
      → n.for_server ≡ none
      → Moves here peer n ⊎ Settled here n
  idle-Moves n s h live hears (Waits.gone q) l p t e = absurd (live q)
  idle-Moves n s h live hears (Waits.announcing _ _ _ full) l p t e = absurd (full e)
  idle-Moves n s h live hears (Waits.free q f) (Waits.forwarding _ _ _ full) p t e = absurd (full f)
  idle-Moves n s h live hears (Waits.free q f) (Waits.gone x) p t e = absurd (hears x)
  idle-Moves n s h live hears (Waits.free q f) (Waits.free x y) p t e =
      elim (link-Moves n (λ z r. (_, link (Steps.passes z r e) refl)) p t) [
        | inl g ↦ inl g
        | inr r ↦ inr (Settled.idle s h e q f x y r)
      ]

  pub over-Moves :
      (n : Net P)
      → n.server ≡ ServerAt.ended
      → AcceptorWaits n
      → ListenerWaits n
      → PasserWaits n
      → Alone.Settled n.tasks
      → Moves here peer n ⊎ Settled here n
  over-Moves n h (Waits.announcing hdl addr q _) l p t =
      inl (_, acceptor (Steps.announce_fails hdl addr q h) refl)
  over-Moves n h a (Waits.free x y) p t = inl (_, listener (Steps.listener_left x y h) refl)
  over-Moves n h (Waits.free q f) (Waits.gone x) p t =
      inl (_, acceptor (Steps.acceptor_left q f h x) refl)
  over-Moves n h (Waits.free q f) (Waits.forwarding _ _ _ full) p t = absurd (full f)
  over-Moves n h (Waits.gone q) (Waits.forwarding stream from x _) p t =
      inl (_, listener (Steps.forward_fails stream from x q) refl)
  over-Moves n h (Waits.gone q) (Waits.gone x) p t =
      elim (link-Moves n (λ e r. (_, link (Steps.pass_fails e r h) refl)) p t) [
        | inl g ↦ inl g
        | inr r ↦ inr (Settled.over h q x r)
      ]

  -- A query goes to the listener, or fails if that has ended: nothing is in its channel.
  pub asking-Moves :
      (n : Net P)
      → awaits n.server ≡ false
      → n.server ≢ ServerAt.ended
      → Query n
      → (n.for_listener ≡ none → Moves here peer n)
      → (n.listener ≡ ListenerAt.ended → Moves here peer n)
      → Moves here peer n
  asking-Moves n b live (Query.idle x y z) ask fail = ask y
  asking-Moves n b live (Query.asked to x y z) ask fail = cc (b, x)
  asking-Moves n b live (Query.replied x y z) ask fail = cc (b, x)
  asking-Moves n b live (Query.over x) ask fail = absurd (live x)
  asking-Moves n b live (Query.unheard x) ask fail = fail x

  pub awaiting-Moves :
      (n : Net P) (s : Server P) (tx : _)
      → n.server ≡ ServerAt.awaiting s tx
      → n.local ≡ none
      → n.acceptor ≢ AcceptorAt.ended
      → AcceptorWaits n
      → ListenerWaits n
      → Query n
      → Moves here peer n ⊎ Settled here n
  awaiting-Moves n s tx h none_there live a l (Query.idle x y z) = cc (ap awaits h, x)
  awaiting-Moves n s tx h none_there live a l (Query.replied x y z) = absurd (z none_there)
  awaiting-Moves n s tx h none_there live a l (Query.over x) = cc (h, x)
  awaiting-Moves n s tx h none_there live a l (Query.unheard x) =
      inl (_, server (Steps.unanswered s tx h x none_there) refl)
  awaiting-Moves n s tx h none_there live a (Waits.gone q) (Query.asked to x y z) =
      inl (_, server (Steps.unanswered s tx h q none_there) refl)
  awaiting-Moves n s tx h none_there live a (Waits.free q e) (Query.asked to x y z) = cc (e, y)
  awaiting-Moves n s tx h none_there live (Waits.gone r) (Waits.forwarding _ _ _ _)
        (Query.asked to x y z) =
      absurd (live r)
  awaiting-Moves n s tx h none_there live (Waits.free _ e) (Waits.forwarding _ _ _ full)
        (Query.asked to x y z) =
      absurd (full e)
  awaiting-Moves n s tx h none_there live (Waits.announcing hdl addr r busy)
        (Waits.forwarding stream from q full) (Query.asked to x y z) =
      inr (
        Settled.unanswered s tx hdl addr stream from (record {
          stalled = record { waits = h; announcing = r; server_full = busy; acceptor_full = full };
          forwarding = q;
          no_answer = none_there;
        }))

  pub closing-Moves :
      (n : Net P) (s : Server P)
      → n.server ≡ ServerAt.closing_acceptor s
      → n.for_acceptor ≢ none
      → AcceptorWaits n
      → Moves here peer n ⊎ Settled here n
  closing-Moves n s h full (Waits.gone q) = inl (_, server (Steps.acceptor_gone s h q) refl)
  closing-Moves n s h full (Waits.free q e) = absurd (full e)
  closing-Moves n s h full (Waits.announcing hdl addr q busy) = inr (
      Settled.stalled s hdl addr
        (record { waits = h; announcing = q; server_full = busy; acceptor_full = full }))
