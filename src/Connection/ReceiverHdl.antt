-- ===== src/Connection/ReceiverHdl.antt =====
-- src/connection/receiver.rs, `ReceiverHdl`: the handle of the websocket's stream half.
use rrev.Prelude.{Result, Async, pure, ◌>>=◌, ◌>>◌}
use rrev.Channel.{WsStream}
use rrev.Scheme.{Parser}
use rrev.Error.{SendError}
use rrev.Connection.Types.{ReceiverHdl, ReceiverMessage, InternalHdl}
use rrev.Connection.Receiver as Reader
use rrev.Runtime.{Tokio, World, to_receiver, receiver_task, send, spawn, new_channel, or_else}

module _ {P : Parser} {tokio : Tokio P} where
  -- Starts the receiver's task.
  unfoldable pub new : InternalHdl P → WsStream → Async (World tokio) ReceiverHdl
  unfolding new_channel spawn
  new connection_handle ws_receiver = do
    n ← new_channel
    spawn (receiver_task (Reader.new connection_handle (record { channel = n }) ws_receiver))
    pure (record { tx = record { channel = n } })

  unfoldable pub close : ReceiverHdl → Async (World tokio) (Result (Unit {0}) SendError)
  unfolding send
  close hdl = do
    done ← send (to_receiver hdl.tx ReceiverMessage.close)
    pure (or_else SendError.send_error done)
