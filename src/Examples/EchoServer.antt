-- ===== src/Examples/EchoServer.antt =====
-- examples/echo_server.rs: a server that sends every request and every event back.
use rrev.Prelude.{List, [], ◌∷◌, ok, err, Async, pure, ◌>>=◌, ◌>>◌}
use rrev.Scheme.{string_parser}
use rrev.Runtime.{Tokio, World, new_channel}
use rrev.Connection.RequestHandle as RequestHandle
use rrev.Server.Types.{ServerHandle, ServerEvent}
use rrev.Server.ServerHandle as Handle
use rrev.Examples.{Exit, returned, panicked}

-- How the handling of one event ends: with the next turn of the loop, with `break`, or in a panic.
pub data Turn : Type 0 where
  next break panic : Turn

module _ {tokio : Tokio string_parser} where
  -- The body of the loop. That a request could not be completed is only logged.
  unfoldable pub handle_event :
      ServerHandle string_parser → ServerEvent string_parser → Async (World tokio) Turn
  unfolding RequestHandle.complete Handle.event
  handle_event server_hdl ServerEvent.close = pure break
  handle_event server_hdl (ServerEvent.new_connection addr) = pure next
  handle_event server_hdl (ServerEvent.connection_close addr) = pure next
  handle_event server_hdl (ServerEvent.connection_request r) = do
    RequestHandle.complete r.request (RequestHandle.get_request r.request)
    pure next
  handle_event server_hdl (ServerEvent.connection_event e) = do
    done ← Handle.event server_hdl e.from e.event
    pure (elim done [ ok _ ↦ next | err _ ↦ panic ])

  -- The loop over what the channel brings, and how the program ends.
  unfoldable pub run :
      ServerHandle string_parser → List (ServerEvent string_parser) → Async (World tokio) Exit
  run server_hdl [] = pure returned
  run server_hdl (e ∷ es) = do
    turn ← handle_event server_hdl e
    elim turn [ next ↦ run server_hdl es | break ↦ pure returned | panic ↦ pure panicked ]

  unfoldable pub main : List (ServerEvent string_parser) → Async (World tokio) Exit
  unfolding new_channel Handle.new Handle.get_listen_address
  main es = do
    n ← new_channel
    server ← Handle.new "127.0.0.1:8080" (record { channel = n })
    elim server [
      | err _ ↦ pure panicked
      | ok server_hdl ↦ do
        addr ← Handle.get_listen_address server_hdl
        elim addr [ err _ ↦ pure panicked | ok _ ↦ run server_hdl es ]
    ]
