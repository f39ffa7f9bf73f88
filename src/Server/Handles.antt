-- ===== src/Server/Handles.antt =====
-- src/server/server_handle.rs: the handles by which the acceptor and the passers reach the server.
use rrev.Prelude.{Result, Async, pure, ◌>>=◌}
use rrev.Channel.{MpscSender, SocketAddr}
use rrev.Scheme.{Parser}
use rrev.Error.{SendError}
use rrev.Connection.Types.{ConnectionHdl, ConnectionEvent}
use rrev.Server.Types.{ServerMessage, AcceptorsServerHandle, PassersServerHandle}
use rrev.Runtime.{Tokio, World, to_server, send, or_else}

abbrev pub acceptors_handle : {P : Parser} → MpscSender (ServerMessage P) → AcceptorsServerHandle P
acceptors_handle tx = record { tx = tx }

-- `From<AcceptorsServerHandle<P>> for PassersServerHandle<P>`
abbrev pub passers_handle : {P : Parser} → AcceptorsServerHandle P → PassersServerHandle P
passers_handle value = record { tx = value.tx }

module _ {P : Parser} {tokio : Tokio P} where
  unfoldable pub new_connection :
      AcceptorsServerHandle P
      → ConnectionHdl P
      → SocketAddr
      → Async (World tokio) (Result (Unit {0}) SendError)
  unfolding send
  new_connection hdl connection_hdl addr = do
    done ← send (to_server hdl.tx (ServerMessage.new_connection connection_hdl addr))
    pure (or_else SendError.send_error done)

  unfoldable pub new_connection_event :
      PassersServerHandle P
      → ConnectionEvent P
      → SocketAddr
      → Async (World tokio) (Result (Unit {0}) SendError)
  unfolding send
  new_connection_event hdl event from = do
    done ← send (to_server hdl.tx (ServerMessage.connection_event from event))
    pure (or_else SendError.send_error done)
