-- ===== src/Tests/TheRoundTrip.antt =====
-- Tests of a request from the user of a server to a client and back.
use rrev.Prelude.{◌≡◌, refl, List, [], ◌∷◌, ◌++◌, ok, ℕ_discrete, arith}
use rrev.Prelude.Map.{get, erase}
use rrev.Channel.{SocketAddr-discrete}
use rrev.Scheme.{string_parser, Message, OurMessage}
use rrev.Runtime.{answer, to_connection, to_owner, to_sender, packets}
use rrev.Connection.Types.{
  Connection, ConnectionMessage, ConnectionEvent, InternalMessage, Receiver, RequestHandle, Sender,
  SenderMessage,
}
use rrev.Connection.{Turn, internal, handle_turn, run_loop}
use rrev.Connection.RequestHandle as Handle
use rrev.Connection.Requests.{reply_turn}
use rrev.Connection.Sender as Writer
use rrev.Server.Types.{Server, ServerMessage}
use rrev.Server.{handle_message}
use rrev.Peers.{read}
use rrev.Peers.RoundTrip.{Comes, request_with, reply_with, handle_of, request_round_trip}
use rrev.Tests.{start}
use rrev.Tests.OneConnection.{idle, ask}
use rrev.Tests.Texts.{as_is, plain, plain-Agree}
use rrev.Tests.TheServer.{there, empty}

abbrev linked : Server string_parser
linked = record empty { connections = (there, handle_of idle) ∷ [] }

-- The connection at the other end.
abbrev other : Connection string_parser
other = record idle { next_id = 5; event_tx = record { channel = 6 } }

-- The halves of both, on channels of the same numbers.
abbrev pen : Sender string_parser
pen = record {
  connection_hdl = record { tx = record { channel = 3 } };
  rx = record { channel = 2 };
  ws_sender = record { handle = 5 };
}

abbrev ear : Receiver string_parser
ear = record {
  connection_handle = record { tx = record { channel = 3 } };
  rx = record { channel = 1 };
  ws_receiver = record { handle = 6 };
}

-- Another request, and a reply that nobody waits for.
abbrev meanwhile : List (Turn string_parser)
meanwhile = ask "b" 22 ∷ reply_turn 9 "?" ∷ []

-- What the senders write besides.
abbrev greeting : List (OurMessage string_parser)
greeting = Message.event "hello" ∷ []

abbrev bye : List (OurMessage string_parser)
bye = Message.event "bye" ∷ []

request_round_trip_example :
    let (p, w') = run_loop idle (ask "q" 21 ∷ meanwhile) (start []) in
    let request : OurMessage string_parser = request_with string_parser 0 "q" in
    let reply : OurMessage string_parser = reply_with string_parser 0 "r" in
    (asked : RequestHandle string_parser) × (packets
        (handle_message linked
          (ServerMessage.send_request there (record { slot = 21 }) "q")
          (start [])).1.history
      ≡ to_connection
          (record { channel = 4 })
          (ConnectionMessage.request "q" (record { slot = 21 }))
        ∷ [])
    × (packets (handle_turn idle (ask "q" 21) (start [])).1.history
        ≡ to_sender (record { channel = 2 }) (SenderMessage.message request) ∷ [])
    × Comes as_is plain other ear (greeting ++ request ∷ []) ("ehello" ∷ "qbq" ∷ []) (start [])
    × (packets
          (handle_turn other
            (internal (InternalMessage.new_message (read as_is request)))
            (start [])).1.history
        ≡ to_owner other.event_tx (ConnectionEvent.request_message asked) ∷ [])
    × (Handle.get_request asked ≡ "q")
    × (packets (Handle.complete asked "r" (start [])).1.history
        ≡ to_sender (record { channel = 2 }) (SenderMessage.message reply) ∷ [])
    × Comes as_is plain idle ear (reply ∷ bye) ("rbr" ∷ "ebye" ∷ []) (start [])
    × (packets
          (handle_turn p.state
            (internal (InternalMessage.new_message (read as_is reply)))
            w').1.history
        ≡ answer (record { slot = 21 }) (ok "r") ∷ packets w'.history)
unfolding run_loop handle_turn get erase ℕ_discrete SocketAddr-discrete Writer.run
    Writer.handle_message Writer.send
request_round_trip_example =
    request_round_trip as_is as_is plain plain linked there idle pen ear other pen ear "q"
      (record { slot = 21 }) meanwhile "r" greeting [] ("ehello" ∷ "qbq" ∷ []) [] bye
      ("rbr" ∷ "ebye" ∷ []) (start []) (start []) (start []) (start []) (start []) (start [])
      (start []) plain-Agree plain-Agree (record { writes = refl; hears = refl })
      (record { writes = refl; hears = refl }) refl refl (omega arith) refl
      (record { first = refl; same = refl }) (record { first = refl; same = refl })
