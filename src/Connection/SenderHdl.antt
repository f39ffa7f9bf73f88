-- ===== src/Connection/SenderHdl.antt =====
-- src/connection/sender.rs, `SenderHdl`: the handle of the websocket's sink half.
use rrev.Prelude.{Result, Async, pure, ◌>>=◌, ◌>>◌}
use rrev.Channel.{WsStream}
use rrev.Scheme.{Parser, OurMessage}
use rrev.Error.{SendError}
use rrev.Connection.Types.{SenderHdl, SenderMessage, InternalHdl}
use rrev.Connection.Sender as Writer
use rrev.Runtime.{
  Tokio, World, to_sender, sender_task, send as deliver, spawn, new_channel, or_else,
}

module _ {P : Parser} {tokio : Tokio P} where
  -- Starts the sender's task.
  unfoldable pub new : InternalHdl P → WsStream → Async (World tokio) (SenderHdl P)
  unfolding new_channel spawn
  new connection_handle ws_sender = do
    n ← new_channel
    spawn (sender_task (Writer.new connection_handle (record { channel = n }) ws_sender))
    pure (record { tx = record { channel = n } })

  unfoldable pub close : SenderHdl P → Async (World tokio) (Result (Unit {0}) SendError)
  unfolding deliver
  close hdl = do
    done ← deliver (to_sender hdl.tx SenderMessage.close)
    pure (or_else SendError.send_error done)

  unfoldable pub send :
      SenderHdl P → OurMessage P → Async (World tokio) (Result (Unit {0}) SendError)
  unfolding deliver
  send hdl m = do
    done ← deliver (to_sender hdl.tx (SenderMessage.message m))
    pure (or_else SendError.send_error done)
