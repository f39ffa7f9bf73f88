-- ===== src/Connection/Receiver.antt =====
-- src/connection/receiver.rs, `Receiver`: the task that reads the websocket.
use rrev.Prelude.{
  Option, none, some, List, [], ◌∷◌, Result, ok, err, ControlFlow, go_on, stop, Async, pure, ◌>>=◌,
  ◌>>◌,
}
use rrev.Channel.{WsError, WsStream, MpscReceiver}
use rrev.Scheme.{Parser}
use rrev.Connection.Types.{Receiver, ReceiverMessage, InternalHdl}
use rrev.Connection.InternalHdl as Internal
use rrev.Runtime.{Tokio, World, Wire}

-- `Error::ConnectionClosed | Error::Protocol(_) | Error::Utf8`
abbrev pub fatal : WsError → ControlFlow
fatal WsError.connection_closed = stop
fatal WsError.protocol = stop
fatal WsError.utf8 = stop
fatal WsError.other = go_on

abbrev pub new : {P : Parser} → InternalHdl P → MpscReceiver ReceiverMessage → WsStream → Receiver P
new connection_handle rx ws_receiver = record {
  connection_handle = connection_handle;
  rx = rx;
  ws_receiver = ws_receiver;
}

unfoldable pub handle_connection_message : {P : Parser} → Receiver P → ReceiverMessage → ControlFlow
handle_connection_message r ReceiverMessage.close = stop

module _ {P : Parser} (wire : Wire P) where
  -- What one turn of `select!` takes: a message of the connection, or what `ws_receiver.next()`
  -- gives, `none` at the end of the stream.
  pub data ReceiverTurn : Type 0 where
    command : ReceiverMessage → ReceiverTurn
    from_ws : Option (Result wire.Frame WsError) → ReceiverTurn

module _ {P : Parser} {tokio : Tokio P} (wire : Wire P) where
  -- A frame that is no text, or no message, is logged and skipped.
  unfoldable pub handle_frame : Receiver P → wire.Frame → Async (World tokio) ControlFlow
  unfolding Internal.new_message
  handle_frame r frame = elim (wire.to_text frame) [
    | none ↦ pure go_on
    | some text ↦ elim (wire.from_str text) [
      | some m ↦ do Internal.new_message r.connection_handle m; pure go_on
      | none ↦ pure go_on
    ]
  ]

  unfoldable pub handle_ws_message :
      Receiver P → Option (Result wire.Frame WsError) → Async (World tokio) ControlFlow
  unfolding handle_frame Internal.close
  handle_ws_message r (some (ok frame)) = handle_frame r frame
  handle_ws_message r (some (err e)) = elim (fatal e) [
    | stop ↦ do Internal.close r.connection_handle; pure stop
    | go_on ↦ pure go_on
  ]
  handle_ws_message r none = do Internal.close r.connection_handle; pure stop

  unfoldable pub handle_turn : Receiver P → ReceiverTurn wire → Async (World tokio) ControlFlow
  unfolding handle_connection_message handle_ws_message
  handle_turn r (command m) = pure (handle_connection_message r m)
  handle_turn r (from_ws m) = handle_ws_message r m

  -- How the loop stands after these turns, and the turns that it did not take.
  unfoldable pub run :
      Receiver P
      → List (ReceiverTurn wire)
      → Async (World tokio) (ControlFlow × List (ReceiverTurn wire))
  run r [] = pure (go_on, [])
  run r (t ∷ ts) = do
    flow ← handle_turn r t
    elim flow [ go_on ↦ run r ts | stop ↦ pure (stop, ts) ]
