-- ===== src/Connection/Answers.antt =====
-- src/connection.rs: what `run` does for the requests that it is given, over any messages in any
-- order and whatever the runtime answers.
use rrev.Prelude.{
  ◌+◌, ◌<◌, ◌≡◌, refl, List, [], ◌∷◌, ◌++◌, go_on, arith, count, count-append, length, ◌⊎◌, inl,
  inr, SameItems, ControlFlow-cases,
}
use rrev.Scheme.{Parser}
use rrev.Runtime.{Tokio, World, Traverses}
use rrev.Connection.Types.{Connection, ConnectionMessage, InternalMessage}
use rrev.Connection.{Turn, external, internal, usize_mod, handle_turn, run_loop, run}
use rrev.Connection.Ledger.{
  WellFormed, HasRoom, answered, waiting, asked, run_loop-count, length-asked, handle_turn-next_id,
  handle_turn-WellFormed,
}
use rrev.Connection.Loop.{
  Stopped, run_loop-go_on, run_loop-stop, run_loop-stops, run-go_on, run-stop,
}
use rrev.Connection.Closing.{finish_lem}

module _ {P : Parser} {tokio : Tokio P} where
  -- A well-formed connection, which has its waiting requests under distinct ids below `next_id`, is
  -- still well-formed after any messages, as long as ids do not run out.
  pub run_loop-WellFormed :
      (ts : List (Turn P)) (c : Connection P) (w : World tokio)
      → c.next_id + length (asked ts) < usize_mod
      → WellFormed c
      → WellFormed (run_loop c ts w).0.state
  run_loop-WellFormed [] c w room v = unfold run_loop in v
  run_loop-WellFormed (t ∷ ts) c w room v =
      let fits : HasRoom c t = omega (arith, length-asked t ts) in
      elim (ControlFlow-cases (handle_turn c t w).0.1) [
        | inl e ↦ rw (run_loop-go_on c t ts w e) (
            run_loop-WellFormed ts (handle_turn c t w).0.0 (handle_turn c t w).1
              (omega (arith, length-asked t ts, handle_turn-next_id c w t fits))
              (handle_turn-WellFormed c w t fits v))
        | inr e ↦ rw (run_loop-stop c t ts w e) (handle_turn-WellFormed c w t fits v)
      ]

  run-Stopped :
      (c : Connection P) (ts us : List (Turn P)) (w : World tokio)
      → Stopped us (run_loop c ts w).0
      → Stopped us (run c ts w).0
  run-Stopped c ts us w e = rw (run-stop c ts w e.0) e

  -- Every oneshot that a well-formed connection holds or is given with a request is answered just
  -- once, or is still in a message that the task has not taken; if the task has not ended, it may
  -- also wait in the reply map. No other oneshot is answered. Ids must not run out on the way, and
  -- a traversal of a map meets each entry once.
  pub run-SameItems :
      (ts : List (Turn P)) (c : Connection P) (w : World tokio)
      → Traverses tokio
      → c.next_id + length (asked ts) < usize_mod
      → WellFormed c
      → let (p, w') = run c ts w in
        SameItems
          (answered w'.history ++ waiting p.state.reply_map ++ asked p.unread)
          (answered w.history ++ waiting c.reply_map ++ asked ts)
        × ((p.flow ≡ go_on) ⊎ (p.state.reply_map ≡ []))
  unfolding count
  run-SameItems ts c w all room v = elim (ControlFlow-cases (run_loop c ts w).0.flow) [
    | inl e ↦
        rw (run-go_on c ts w e)
          (λ a. omega (arith, count-append, run_loop-count a ts c w room v), inl e)
    | inr e ↦
        let (p, w') = run_loop c ts w in
        let closing = finish_lem p.state w' all (run_loop-WellFormed ts c w room v).distinct in
        rw (run-stop c ts w e, closing.0)
          (λ a. omega (arith, count-append, closing.2 a, run_loop-count a ts c w room v), inr refl)
  ]

  -- A close from the user or from one of the halves of the stream takes the task out of its loop,
  -- if nothing before did, and no message after it is taken, whatever came before it and whatever
  -- the runtime answers. That the sends after the loop end is not said.
  pub run_ends :
      (ts us : List (Turn P)) (c : Connection P) (w : World tokio)
      → Stopped us (run c (ts ++ external ConnectionMessage.close ∷ us) w).0
        × Stopped us (run c (ts ++ internal InternalMessage.close ∷ us) w).0
  run_ends ts us c w = (
    run-Stopped c _ us w (
        run_loop-stops c ts us (external ConnectionMessage.close) w
          (λ c' w'. unfold handle_turn in refl)),
    run-Stopped c _ us w (
        run_loop-stops c ts us (internal InternalMessage.close) w
          (λ c' w'. unfold handle_turn in refl)),
  )
