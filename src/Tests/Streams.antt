-- ===== src/Tests/Streams.antt =====
-- Tests of src/connection/receiver.rs and src/connection/sender.rs, and the theorems about them at
-- concrete inputs.
use rrev.Prelude.{◌≡◌, refl, String, some, none, List, [], ◌∷◌, ◌++◌, ok, err, push_all, map}
use rrev.Channel.{WsError}
use rrev.Scheme.{string_parser, Message}
use rrev.Runtime.{Wire, to_internal, packets}
use rrev.Connection.Types.{Receiver, Sender, SenderMessage, InternalMessage}
use rrev.Connection.Receiver.{ReceiverTurn, from_ws}
use rrev.Connection.Receiver
use rrev.Connection.Sender
use rrev.Connection.Reading.{heard, run-heard}
use rrev.Connection.Writing.{texts, shut_streams, serialized, after_close, closings, run-texts}
use rrev.Tests.{start}

-- Frames are texts, every text is an event, and requests cannot be written.
abbrev echo : Wire string_parser
echo = record {
  Frame = String;
  to_text = λ t. some t;
  to_string = λ m. elim m [
    | Message.request r ↦ none
    | Message.reply r ↦ some r.payload
    | Message.event e ↦ some e
  ];
  from_str = λ t. some (Message.event t);
}

abbrev reader : Receiver string_parser
reader = record {
  connection_handle = record { tx = record { channel = 3 } };
  rx = record { channel = 1 };
  ws_receiver = record { handle = 5 };
}

abbrev writer : Sender string_parser
writer = record {
  connection_hdl = record { tx = record { channel = 3 } };
  rx = record { channel = 2 };
  ws_sender = record { handle = 5 };
}

abbrev incoming : List (ReceiverTurn echo)
incoming =
    from_ws (some (ok "a"))
    ∷ from_ws (some (err WsError.other))
    ∷ from_ws (some (err WsError.protocol))
    ∷ from_ws (some (ok "b"))
    ∷ []

incoming-heard :
    heard echo incoming
    ≡ InternalMessage.new_message (Message.event "a") ∷ InternalMessage.close ∷ []
incoming-heard = refl

run-heard_example :
    packets (Receiver.run echo reader incoming (start [])).1.history
    ≡ push_all (map (to_internal reader.connection_handle.tx) (heard echo incoming)) []
run-heard_example = run-heard echo reader incoming (start [])

abbrev outgoing : List (SenderMessage string_parser)
outgoing =
    SenderMessage.message (Message.event "a")
    ∷ SenderMessage.message (Message.request (record { id = 0; payload = "q" }))
    ∷ SenderMessage.message (Message.reply (record { id = 4; payload = "r" }))
    ∷ SenderMessage.close
    ∷ SenderMessage.message (Message.event "b")
    ∷ []

outgoing-serialized : serialized echo outgoing ≡ "a" ∷ "r" ∷ []
outgoing-serialized = refl

run-texts_example :
    let (rest, w') = Sender.run echo writer outgoing (start []) in
    (texts w'.history ≡ push_all (serialized echo outgoing) [])
    × (shut_streams w'.history ≡ closings writer.ws_sender outgoing ++ [])
    × (rest ≡ after_close outgoing)
run-texts_example = run-texts echo writer outgoing (start [])
