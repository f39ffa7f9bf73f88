-- ===== src/Tests/Together.antt =====
-- Tests of the tasks of one connection side by side, and of two programs at one websocket.
use rrev.Prelude.{
  false, Bool, true, ◌⊎◌, err, map_err, ◌≡◌, refl, String, some, none, [], ◌∷◌, ◌++◌, ok, map,
  push_all,
}
use rrev.Channel.{OneshotSender}
use rrev.Error.{RequestError, TimeoutError}
use rrev.Connection.ConnectionHdl.{received, request_timeout}
use rrev.Connection.Calls.{request_timeout_sends}
use rrev.Scheme.{Parser, string_parser, Message, Request, OurMessage}
use rrev.Runtime.{sent, to_connection, Tokio, World, Wire, to_internal, packets}
use rrev.Connection.Types.{
  Answer, ConnectionHdl, ConnectionMessage, InternalMessage, SenderMessage, Sender, Receiver,
}
use rrev.Connection.{handle_turn}
use rrev.Connection.Receiver as Reader
use rrev.Connection.Sender as Writer
use rrev.Connection.Receiver.{from_ws}
use rrev.Connection.Waiting.{Tasks, Steps, pause, user_sends, rest, more}
use rrev.Connection.Deadlock.{
  After, awaited, bounded, fresh, locked, Locked, pause-handle_turn, deadlock,
}
use rrev.Peers.{Reads, Agree, read, run-run}
use rrev.Tests.{scripted, start, here}
use rrev.Tests.OneConnection.{idle, ask}

pause-handle_turn_example :
    (b : Bool) × After (pause idle (ask "a" 21)) b (handle_turn idle (ask "a" 21) (start [])).0
    × (bounded (handle_turn idle (ask "a" 21) (start [])).1.history
        ≡ map (λ p. sent p b) (awaited (pause idle (ask "a" 21))) ++ [])
pause-handle_turn_example = pause-handle_turn idle (ask "a" 21) (start [])

-- The user sends once more.
abbrev later : Tasks string_parser
later = record (locked idle "b" "c") { user = some (ConnectionMessage.event "d") }

deadlock_example :
    Steps (fresh idle) (locked idle "b" "c")
    × Locked idle
        (Message.event "c")
        (SenderMessage.message (Message.event "b"))
        InternalMessage.close
        later
deadlock_example =
    deadlock idle "a" "b" "c" later (
      more _ _ _ (user_sends (locked idle "b" "c") (ConnectionMessage.event "d") refl) (rest later))

-- Two programs that only send events to each other.
abbrev chat : Parser
chat = record {
  OurRequest = ⊥;
  OurReply = ⊥;
  OurEvent = String;
  TheirRequest = ⊥;
  TheirReply = ⊥;
  TheirEvent = String;
}

abbrev calm : Tokio chat
calm = record {
  Env = Unit {0};
  deliver = λ _ s. (true, s);
  write = λ _ _ s. (none, s);
  shut = λ _ s. s;
  fresh = λ s. (0, s);
  answered = λ _ s. (none, s);
  answered_address = λ _ s. (none, s);
  answered_clients = λ _ s. (none, s);
  answered_local = λ _ s. (none, s);
  expired = λ _ s. (false, s);
  traverse = λ m s. (m, s);
  upgrade = λ t s. (ok (record { handle = t.handle }), s);
  connect = λ _ s. (ok (record { handle = 1 }), s);
  bind = λ _ s. (ok (record { handle = 2 }), s);
  local_addr = λ _ s. (ok here, s);
}

abbrev quiet : World calm
quiet = record { env = tt; history = [] }

abbrev plain : Wire chat
plain = record {
  Frame = String;
  to_text = λ t. some t;
  to_string =
      λ m. elim m [ Message.request r ↦ none | Message.reply r ↦ none | Message.event e ↦ some e ];
  from_str = λ t. some (Message.event t);
}

abbrev as_sent : Reads chat chat
as_sent = record { request = λ q. q; reply = λ r. r; event = λ e. e }

abbrev chat_text : OurMessage chat → String
chat_text (Message.request r) = absurd r.payload
chat_text (Message.reply r) = absurd r.payload
chat_text (Message.event e) = e

to_string-chat : (m : OurMessage chat) → plain.to_string m ≡ some (chat_text m)
to_string-chat (Message.request r) = absurd r.payload
to_string-chat (Message.reply r) = absurd r.payload
to_string-chat (Message.event e) = refl

from_str-chat : (m : OurMessage chat) → plain.from_str (chat_text m) ≡ some (read as_sent m)
from_str-chat (Message.request r) = absurd r.payload
from_str-chat (Message.reply r) = absurd r.payload
from_str-chat (Message.event e) = refl

plain-Agree : Agree as_sent plain plain
plain-Agree = record { text = chat_text; writes = to_string-chat; reads_back = from_str-chat }

abbrev mouth : Sender chat
mouth = record {
  connection_hdl = record { tx = record { channel = 3 } };
  rx = record { channel = 2 };
  ws_sender = record { handle = 5 };
}

abbrev ear : Receiver chat
ear = record {
  connection_handle = record { tx = record { channel = 8 } };
  rx = record { channel = 1 };
  ws_receiver = record { handle = 6 };
}

run-run_example :
    packets
      (Reader.run plain ear
        (from_ws (some (ok "a")) ∷ from_ws (some (ok "b")) ∷ [])
        quiet).1.history
    ≡ push_all
        (map
          (λ m. to_internal ear.connection_handle.tx (InternalMessage.new_message (read as_sent m)))
          (Message.event "a" ∷ Message.event "b" ∷ []))
        []
unfolding Writer.run Writer.handle_message Writer.send
run-run_example =
    run-run plain plain mouth (Message.event "a" ∷ Message.event "b" ∷ []) quiet ear
      ("a" ∷ "b" ∷ []) quiet plain-Agree refl refl

abbrev call : Request String
call = record { id = 4; payload = "q" }

abbrev caller : ConnectionHdl string_parser
caller = record { tx = record { channel = 4 } }

request_timeout_sends_example :
    let (r, w') = request_timeout caller "q" 500 (start []) in
    ((r ≡ err TimeoutError.timeout) × (w'.history ≡ []))
    ⊎ ((tx : OneshotSender (Answer string_parser)) × (b : Bool) × (w'.history
          ≡ sent (to_connection caller.tx (ConnectionMessage.request "q" tx)) b ∷ [])
        × (((b ≡ false) × (r ≡ err (TimeoutError.request_error RequestError.send_error)))
            ⊎ ((b ≡ true)
                × ((r ≡ err TimeoutError.timeout)
                    ⊎ ((e : scripted.Env) × (r
                          ≡ map_err TimeoutError.request_error
                              (received (scripted.answered tx e).0)))))))
request_timeout_sends_example = request_timeout_sends caller "q" 500 (start [])
