-- ===== src/Tests/OneConnection.antt =====
-- Tests of src/connection.rs, and the theorems about it at concrete inputs.
use rrev.Prelude.{
  ℕ, ◌≡◌, refl, String, true, false, none, List, [], ◌∷◌, ◌++◌, ◌+◌, ok, err, go_on, arith, ◌⊎◌,
  SameItems, count, ℕ_discrete, length, ◌-◌,
}
use rrev.Prelude.Machine.{Tells}
use rrev.Prelude.Map.{Map, SameEntries, get, erase}
use rrev.Channel.{OneshotSender}
use rrev.Scheme.{string_parser, Message}
use rrev.Error.{RequestError}
use rrev.Runtime.{answer, to_owner, to_sender, to_receiver, packets}
use rrev.Connection.Types.{
  Answer, Connection, ConnectionMessage, ConnectionEvent, InternalMessage, SenderMessage,
  ReceiverMessage,
}
use rrev.Connection.{Turn, external, internal, handle_turn, cancel_requests, finish, run_loop, run}
use rrev.Connection.Ledger.{WellFormed, answered, waiting, asked, handle_turn-WellFormed}
use rrev.Connection.Refinement.{view}
use rrev.Connection.Machine.{connection_machine, run_loop_refines}
use rrev.Connection.Closing.{cancellations, finish_lem}
use rrev.Connection.Loop.{Stopped}
use rrev.Connection.Answers.{run_loop-WellFormed, run_ends, run-SameItems}
use rrev.Connection.Requests.{reply_turn, reply_reaches_request}
use rrev.Connection.WireIds.{wire_ids, ids_down, run_loop_ids}
use rrev.Tests.{scripted-Traverses, start}

abbrev pub idle : Connection string_parser
idle = record {
  receiver_hdl = record { tx = record { channel = 1 } };
  sender_hdl = record { tx = record { channel = 2 } };
  internal_rx = record { channel = 3 };
  rx = record { channel = 4 };
  next_id = 0;
  reply_map = [];
  event_tx = record { channel = 5 };
}

idle-WellFormed : WellFormed idle
unfolding get
idle-WellFormed = record { distinct = tt; bounded = λ k le. refl }

abbrev pub ask : String → ℕ → Turn string_parser
ask q slot = external (ConnectionMessage.request q (record { slot = slot }))

abbrev hang_up : Turn string_parser
hang_up = external ConnectionMessage.close

-- Two requests, a reply to the first, an unknown reply, a close, and a request too late.
abbrev session : List (Turn string_parser)
session = ask "a" 21 ∷ ask "b" 22 ∷ reply_turn 0 "A" ∷ reply_turn 9 "?" ∷ hang_up ∷ ask "c" 23 ∷ []

session-packets :
    packets (run idle session (start [])).1.history
    ≡ to_owner idle.event_tx ConnectionEvent.close
      ∷ answer (record { slot = 22 }) (err RequestError.canceled)
      ∷ to_sender idle.sender_hdl.tx SenderMessage.close
      ∷ to_receiver idle.receiver_hdl.tx ReceiverMessage.close
      ∷ answer (record { slot = 21 }) (ok "A")
      ∷ to_sender idle.sender_hdl.tx
          (SenderMessage.message (Message.request (record { id = 1; payload = "b" })))
      ∷ to_sender idle.sender_hdl.tx
          (SenderMessage.message (Message.request (record { id = 0; payload = "a" })))
      ∷ []
unfolding run run_loop handle_turn finish cancel_requests get erase ℕ_discrete
session-packets = refl

-- With the sender gone the second request ends the loop.
sender_gone :
    (run idle session (start (true ∷ false ∷ []))).0.unread
    ≡ reply_turn 0 "A" ∷ reply_turn 9 "?" ∷ hang_up ∷ ask "c" 23 ∷ []
unfolding run run_loop handle_turn finish cancel_requests get erase ℕ_discrete
sender_gone = refl

run-SameItems_example :
    let (p, w') = run idle session (start []) in
    SameItems
      (answered w'.history ++ waiting p.state.reply_map ++ asked p.unread)
      (21 ∷ 22 ∷ 23 ∷ [])
    × ((p.flow ≡ go_on) ⊎ (p.state.reply_map ≡ []))
run-SameItems_example =
    run-SameItems session idle (start []) scripted-Traverses (omega arith) idle-WellFormed

run_loop-WellFormed_example : WellFormed (run_loop idle session (start [])).0.state
run_loop-WellFormed_example =
    run_loop-WellFormed session idle (start []) (omega arith) idle-WellFormed

run_loop_refines_example :
    let (p, w') = run_loop idle session (start []) in
    Tells
      (connection_machine idle.sender_hdl idle.event_tx)
      (view idle)
      session
      []
      (view p.state)
      w'.history
      p.flow
      p.unread
run_loop_refines_example = run_loop_refines session idle (start []) (omega arith) idle-WellFormed

run_loop_ids_example :
    let (p, w') = run_loop idle session (start []) in
    wire_ids (packets w'.history) ≡ ids_down 0 (3 - length (asked p.unread)) ++ []
run_loop_ids_example = run_loop_ids session idle (start []) (omega arith) idle-WellFormed

reply_reaches_request_example :
    let (p, w') = run_loop idle (ask "a" 21 ∷ ask "b" 22 ∷ reply_turn 9 "?" ∷ []) (start []) in
    let ((c'', flow), w'') = handle_turn p.state (reply_turn 0 "A") w' in
    (packets w''.history ≡ answer (record { slot = 21 }) (ok "A") ∷ packets w'.history)
    × (get ℕ_discrete 0 c''.reply_map ≡ none)
    × (flow ≡ go_on)
unfolding run_loop handle_turn get erase ℕ_discrete
reply_reaches_request_example =
    reply_reaches_request idle "a" (record { slot = 21 }) (ask "b" 22 ∷ reply_turn 9 "?" ∷ []) "A"
      (start []) refl (omega arith) refl

finish_lem_example :
    let c = (handle_turn idle (ask "a" 21) (start [])).0.0 in
    let (c', w') = finish c (start []) in
    (c' ≡ record c { reply_map = [] })
    × ((entries : Map ℕ (OneshotSender (Answer string_parser))) × SameEntries ℕ_discrete entries
          c.reply_map
        × (packets w'.history
            ≡ to_owner c.event_tx ConnectionEvent.close ∷ cancellations entries
              ++ to_sender c.sender_hdl.tx SenderMessage.close
                ∷ to_receiver c.receiver_hdl.tx ReceiverMessage.close
                ∷ []))
    × ((a : ℕ) → count a (answered w'.history) ≡ count a (waiting c.reply_map) + count a [])
finish_lem_example =
    finish_lem (handle_turn idle (ask "a" 21) (start [])).0.0 (start []) scripted-Traverses
      (handle_turn-WellFormed idle (start []) (ask "a" 21) (omega arith) idle-WellFormed).distinct

run_ends_example :
    Stopped (ask "b" 22 ∷ []) (run idle (ask "a" 21 ∷ hang_up ∷ ask "b" 22 ∷ []) (start [])).0
    × Stopped
        (ask "b" 22 ∷ [])
        (run idle (ask "a" 21 ∷ internal InternalMessage.close ∷ ask "b" 22 ∷ []) (start [])).0
run_ends_example = run_ends (ask "a" 21 ∷ []) (ask "b" 22 ∷ []) idle (start [])
