-- ===== src/Server/Machine.antt =====
-- src/server.rs: the loop of `run` against a machine that knows which connection stands under which
-- address, and how each of its sends ended.
use rrev.Prelude.{
  ◌≡◌, refl, sym, ap, ◌∙◌, Bool, true, List, [], ◌∷◌, ◌++◌, ControlFlow, arith, map, push_all, inl,
  inr, ControlFlow-cases, Bool-cases,
}
use rrev.Prelude.Machine.{Machine, Tells, Tells-then, Tells-stop}
use rrev.Channel.{MpscSender}
use rrev.Scheme.{Parser}
use rrev.Runtime.{Tokio, World, Entry, sent, to_connection, to_user}
use rrev.Connection.Types.{ConnectionEvent}
use rrev.Server.Types.{Server, ServerMessage, ServerEvent}
use rrev.Server.{handle_message, serve}
use rrev.Server.Registry.{serve-go_on, serve-stop}
use rrev.Server.Refinement.{
  View, view, next_view, emitted_by, emitted, verdict, is_query, handle_message_refines,
}

module _ {P : Parser} where
  -- The sends to the connections and to the user: not those that a query makes.
  abbrev pub routed_sends : List (Entry P) → List (Entry P)
  routed_sends [] = []
  routed_sends (sent (to_connection tx m) b ∷ h) = sent (to_connection tx m) b ∷ routed_sends h
  routed_sends (sent (to_user tx e) b ∷ h) = sent (to_user tx e) b ∷ routed_sends h
  routed_sends (_ ∷ h) = routed_sends h

  -- The machine of a server with this user.
  abbrev pub server_machine :
      MpscSender (ServerEvent P) → Machine (View P) (ServerMessage P) (Entry P)
  server_machine tx = record {
    next = next_view;
    does = λ v m b. map (λ p. sent p b) (emitted_by tx v m);
    verdict = verdict;
  }

  -- All that a handler did, with the outcome `b` of what it sent.
  pub record Does (s : Server P) (m : ServerMessage P) (before : List (Entry P)) (s' : Server P)
      (flow : ControlFlow) (after : List (Entry P)) : Type 0 where
    pub outcome : Bool
    pub same_tx : s'.tx ≡ s.tx
    pub seen : view s' ≡ next_view (view s) m outcome
    pub history :
        routed_sends after
        ≡ push_all (map (λ p. sent p outcome) (emitted s m)) (routed_sends before)
    pub flows : flow ≡ verdict m outcome

  routed_sends-emitted :
      (s : Server P) (m : ServerMessage P) (b : Bool) (h : List (Entry P))
      → routed_sends (map (λ p. sent p b) (emitted s m) ++ h)
        ≡ push_all (map (λ p. sent p b) (emitted s m)) (routed_sends h)
  routed_sends-emitted s (ServerMessage.connection_event from ConnectionEvent.close) b h = refl
  routed_sends-emitted s (ServerMessage.connection_event from (ConnectionEvent.event_message e)) b
        h =
      refl
  routed_sends-emitted s (ServerMessage.connection_event from (ConnectionEvent.request_message r)) b
        h =
      refl
  routed_sends-emitted s m b h = ground arith

module _ {P : Parser} {tokio : Tokio P} where
  handle_message-tx :
      (s : Server P) (m : ServerMessage P) (w : World tokio) → (handle_message s m w).0.0.tx ≡ s.tx
  unfolding handle_message
  handle_message-tx s (ServerMessage.connection_event from ConnectionEvent.close) w = refl
  handle_message-tx s (ServerMessage.connection_event from (ConnectionEvent.event_message e)) w =
      refl
  handle_message-tx s (ServerMessage.connection_event from (ConnectionEvent.request_message r)) w =
      refl
  handle_message-tx s m w = ground arith

  handle_query-Does :
      (s : Server P) (m : ServerMessage P) (w : World tokio)
      → is_query m ≡ true
      → Does s m w.history
          (handle_message s m w).0.0
          (handle_message s m w).0.1
          (handle_message s m w).1.history
  unfolding handle_message
  handle_query-Does s (ServerMessage.get_clients tx) w q = record {
    outcome = true;
    same_tx = refl;
    seen = refl;
    history = ground arith;
    flows = refl;
  }
  handle_query-Does s (ServerMessage.get_listen_address tx) w q = record {
    outcome = true;
    same_tx = refl;
    seen = refl;
    history = ground arith;
    flows = refl;
  }
  handle_query-Does s m w q = cc q

  handle_message-Does :
      (s : Server P) (m : ServerMessage P) (w : World tokio)
      → Does s m w.history
          (handle_message s m w).0.0
          (handle_message s m w).0.1
          (handle_message s m w).1.history
  handle_message-Does s m w = elim (Bool-cases (is_query m)) [
    | inl q ↦ handle_query-Does s m w q
    | inr q ↦
        let (b, seen, history, flow) = handle_message_refines s m w q in
        record {
          outcome = b;
          same_tx = handle_message-tx s m w;
          seen = λ i a. seen a i;
          history = ap routed_sends history ∙ routed_sends-emitted s m b w.history;
          flows = flow;
        }
  ]

  -- For some outcomes of its messages, the server's loop does what its machine does, with any
  -- messages: it comes to the machine's view, it makes the machine's sends to the connections and to
  -- the user with the machine's outcomes, each once and in order, and no other, it goes on or stops as
  -- the machine does, and leaves the same messages untaken.
  pub serve_refines :
      (ms : List (ServerMessage P)) (s : Server P) (w : World tokio)
      → let (p, w') = serve s ms w in
        Tells
          (server_machine s.tx)
          (view s)
          ms
          (routed_sends w.history)
          (view p.state)
          (routed_sends w'.history)
          p.flow
          p.unread
  serve_refines [] s w = unfold serve in ([], refl, refl, refl, refl)
  serve_refines (m ∷ ms) s w =
      let machine = server_machine s.tx in
      let d = handle_message-Does s m w in
      elim (ControlFlow-cases (handle_message s m w).0.1) [
        | inl e ↦
            let later = serve_refines ms (handle_message s m w).0.0 (handle_message s m w).1 in
            rw (serve-go_on s m ms w e) (
              Tells-then machine _ (view s) _ m ms d.outcome (routed_sends w.history) _ _ _ _ _
                (sym d.flows ∙ e) (ap server_machine d.same_tx) d.seen d.history later)
        | inr e ↦ rw (serve-stop s m ms w e) (
            Tells-stop machine (view s) m ms d.outcome (routed_sends w.history) _ _
              (sym d.flows ∙ e) d.seen d.history)
      ]
