-- ===== src/Connection/Machine.antt =====
-- src/connection.rs: the loop of `run` against a machine that knows which requests wait, and how each of
-- its sends ended.
use rrev.Prelude.{
  ◌+◌, ◌<◌, ◌≡◌, refl, sym, ◌∙◌, Bool, true, List, [], ◌∷◌, ControlFlow, go_on, stop, arith, map,
  push_all, if◌then◌else◌, length, inl, inr, ControlFlow-cases, Option-cases, ℕ_discrete, ok,
}
use rrev.Prelude.Map.{get}
use rrev.Prelude.Machine.{Machine, Tells, Tells-then, Tells-stop}
use rrev.Channel.{MpscSender}
use rrev.Scheme.{Parser, Message}
use rrev.Runtime.{Tokio, World, Entry, sent, send, to_sender, to_owner, answer}
use rrev.Connection.Types.{
  Connection, ConnectionEvent, ConnectionMessage, InternalMessage, SenderHdl, SenderMessage,
}
use rrev.Connection.{Turn, external, internal, usize_mod, handle_turn, run_loop}
use rrev.Connection.Ledger.{
  WellFormed, HasRoom, asked, length-asked, handle_turn-next_id, handle_turn-WellFormed,
}
use rrev.Connection.Loop.{run_loop-go_on, run_loop-stop}
use rrev.Connection.Refinement.{View, view, next_view, emitted_by, emitted, handle_turn_refines}

module _ {P : Parser} where
  -- A close ends the loop, and so does a message that cannot be passed on, but not an answer.
  abbrev pub verdict : Turn P → Bool → ControlFlow
  verdict (external ConnectionMessage.close) b = stop
  verdict (internal InternalMessage.close) b = stop
  verdict (internal (InternalMessage.new_message (Message.reply _))) b = go_on
  verdict _ b = if b then go_on else stop

  -- The machine of a connection with this sender and this owner.
  abbrev pub connection_machine :
      SenderHdl P → MpscSender (ConnectionEvent P) → Machine (View P) (Turn P) (Entry P)
  connection_machine hdl event_tx = record {
    next = λ v t b. next_view v t;
    does = λ v t b. map (λ p. sent p b) (emitted_by hdl event_tx v t);
    verdict = verdict;
  }

  -- All that a turn did, with the outcome `b` of what it sent.
  pub record Does (c : Connection P) (t : Turn P) (before : List (Entry P)) (c' : Connection P)
      (flow : ControlFlow) (after : List (Entry P)) : Type 0 where
    pub outcome : Bool
    pub same_sender : c'.sender_hdl ≡ c.sender_hdl
    pub same_owner : c'.event_tx ≡ c.event_tx
    pub history : after ≡ push_all (map (λ p. sent p outcome) (emitted c t)) before
    pub flows : flow ≡ verdict t outcome

module _ {P : Parser} {tokio : Tokio P} where
  handle_turn-Does :
      (c : Connection P) (t : Turn P) (w : World tokio)
      → HasRoom c t
      → WellFormed c
      → Does c t w.history
          (handle_turn c t w).0.0
          (handle_turn c t w).0.1
          (handle_turn c t w).1.history
  unfolding handle_turn
  handle_turn-Does c (external ConnectionMessage.close) w room v = record {
    outcome = true;
    same_sender = refl;
    same_owner = refl;
    history = refl;
    flows = refl;
  }
  handle_turn-Does c (external (ConnectionMessage.event e)) w room v = record {
    outcome = (send (to_sender c.sender_hdl.tx (SenderMessage.message (Message.event e))) w).0;
    same_sender = refl;
    same_owner = refl;
    history = refl;
    flows = ground arith;
  }
  handle_turn-Does c (external (ConnectionMessage.request q tx)) w room v = record {
    outcome =
        (send
          (to_sender c.sender_hdl.tx
            (SenderMessage.message (Message.request (record { id = c.next_id; payload = q }))))
          w).0;
    same_sender = ground (arith, v.bounded c.next_id);
    same_owner = ground (arith, v.bounded c.next_id);
    history = ground (arith, v.bounded c.next_id);
    flows = ground (arith, v.bounded c.next_id);
  }
  handle_turn-Does c (internal InternalMessage.close) w room v = record {
    outcome = true;
    same_sender = refl;
    same_owner = refl;
    history = refl;
    flows = refl;
  }
  handle_turn-Does c (internal (InternalMessage.new_message (Message.request r))) w room v =
      record {
        outcome =
            (send
              (to_owner c.event_tx (
                ConnectionEvent.request_message
                  (record { request = r; sender_hdl = c.sender_hdl })))
              w).0;
        same_sender = refl;
        same_owner = refl;
        history = refl;
        flows = ground arith;
      }
  handle_turn-Does c (internal (InternalMessage.new_message (Message.event e))) w room v = record {
    outcome = (send (to_owner c.event_tx (ConnectionEvent.event_message e)) w).0;
    same_sender = refl;
    same_owner = refl;
    history = refl;
    flows = ground arith;
  }
  handle_turn-Does c (internal (InternalMessage.new_message (Message.reply r))) w room v =
      elim (Option-cases (get ℕ_discrete r.id c.reply_map)) [
        | inl e ↦ record {
          outcome = true;
          same_sender = ground arith;
          same_owner = ground arith;
          history = ground arith;
          flows = ground arith;
        }
        | inr (tx, e) ↦ record {
          outcome = (send (answer tx (ok r.payload)) w).0;
          same_sender = ground arith;
          same_owner = ground arith;
          history = ground arith;
          flows = ground arith;
        }
      ]

  -- For some outcomes of its turns, the loop of a well-formed connection does what its machine does:
  -- it comes to the machine's view, it makes the machine's sends with the machine's outcomes, each
  -- once and in order, and nothing else, it goes on or stops as the machine does, and leaves the same
  -- messages untaken. Ids must not run out on the way.
  pub run_loop_refines :
      (ts : List (Turn P)) (c : Connection P) (w : World tokio)
      → c.next_id + length (asked ts) < usize_mod
      → WellFormed c
      → let (p, w') = run_loop c ts w in
        Tells
          (connection_machine c.sender_hdl c.event_tx)
          (view c)
          ts
          w.history
          (view p.state)
          w'.history
          p.flow
          p.unread
  run_loop_refines [] c w room v = unfold run_loop in ([], refl, refl, refl, refl)
  run_loop_refines (t ∷ ts) c w room v =
      let fits : HasRoom c t = omega (arith, length-asked t ts) in
      let c' : Connection P = (handle_turn c t w).0.0 in
      let w' : World tokio = (handle_turn c t w).1 in
      let machine = connection_machine c.sender_hdl c.event_tx in
      let d = handle_turn-Does c t w fits v in
      let (seen, _) = handle_turn_refines c t w fits v in
      elim (ControlFlow-cases (handle_turn c t w).0.1) [
        | inl e ↦
            let later =
              run_loop_refines ts c' w'
                (omega (arith, length-asked t ts, handle_turn-next_id c w t fits))
                (handle_turn-WellFormed c w t fits v) in
            rw (run_loop-go_on c t ts w e) (
              Tells-then machine (connection_machine c'.sender_hdl c'.event_tx) (view c) (view c') t
                ts d.outcome w.history w'.history _ _ _ _ (sym d.flows ∙ e)
                (cc (d.same_sender, d.same_owner)) seen d.history later)
        | inr e ↦ rw (run_loop-stop c t ts w e) (
            Tells-stop machine (view c) t ts d.outcome w.history _ _ (sym d.flows ∙ e) seen
              d.history)
      ]
