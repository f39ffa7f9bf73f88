-- ===== src/Tests/ThePrograms.antt =====
-- Tests of the examples: the theorems about them at concrete inputs.
use rrev.Prelude.{ℕ, ◌≡◌, refl, String, true, false, List, [], ◌∷◌, zero, suc}
use rrev.Scheme.{string_parser, Message}
use rrev.Runtime.{packets, to_server, to_connection, to_sender}
use rrev.Connection.Types.{ConnectionMessage, SenderMessage}
use rrev.Connection.Types as ConnectionTypes
use rrev.Server.Types.{Server, ServerEvent, ServerMessage, ServerHandle}
use rrev.Examples.{panicked}
use rrev.Examples.EchoServer.{handle_event, run}
use rrev.Examples.TickerClient.{ticks}
use rrev.Tests.{start, here}
use rrev.Tests.TheServer.{there, hdl_at, empty}

abbrev echo_hdl : ServerHandle string_parser
echo_hdl = record { tx = record { channel = 1 } }

abbrev asking : ConnectionTypes.RequestHandle string_parser
asking = record {
  sender_hdl = record { tx = record { channel = 8 } };
  request = record { id = 3; payload = "q" };
}

-- A connection comes, asks, and sends an event; then the server closes.
abbrev visit : List (ServerEvent string_parser)
visit =
    ServerEvent.new_connection here
    ∷ ServerEvent.connection_request (record { from = here; request = asking })
    ∷ ServerEvent.connection_event (record { from = here; event = "e" })
    ∷ ServerEvent.close
    ∷ ServerEvent.connection_close here
    ∷ []

run-visit :
    packets (run echo_hdl visit (start [])).1.history
    ≡ to_server echo_hdl.tx (ServerMessage.send_event here "e")
      ∷ to_sender
          (record { channel = 8 })
          (SenderMessage.message (Message.reply (record { id = 3; payload = "q" })))
      ∷ []
unfolding run handle_event
run-visit = refl

-- The server is gone when the event is to be sent.
run_panics : (run echo_hdl visit (start (true ∷ false ∷ []))).0 ≡ panicked
unfolding run handle_event
run_panics = refl

abbrev one_there : Server string_parser
one_there = record empty { connections = (there, hdl_at 21) ∷ [] }

-- A way to write a number that is enough for a test.
abbrev digit : ℕ → String
digit zero = "0"
digit (suc zero) = "1"
digit _ = "many"

ticks-two :
    packets (ticks digit (hdl_at 21) 2 0 (start [])).1.history
    ≡ to_connection (hdl_at 21).tx (ConnectionMessage.event "count: 1")
      ∷ to_connection (hdl_at 21).tx (ConnectionMessage.event "count: 0")
      ∷ []
unfolding ticks
ticks-two = refl
