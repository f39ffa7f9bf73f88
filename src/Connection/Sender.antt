-- ===== src/Connection/Sender.antt =====
-- src/connection/sender.rs, `Sender`: the task that writes the websocket.
use rrev.Prelude.{
  Option, none, some, List, [], ◌∷◌, ControlFlow, go_on, stop, Async, pure, ◌>>=◌, ◌>>◌,
}
use rrev.Channel.{WsError, WsStream, MpscReceiver}
use rrev.Scheme.{Parser, OurMessage}
use rrev.Connection.Types.{Sender, SenderMessage, InternalHdl}
use rrev.Connection.InternalHdl as Internal
use rrev.Runtime.{Tokio, World, Wire, ws_send, ws_close}

abbrev pub new : {P : Parser} → InternalHdl P → MpscReceiver (SenderMessage P) → WsStream → Sender P
new connection_handle rx ws_sender = record {
  connection_hdl = connection_handle;
  rx = rx;
  ws_sender = ws_sender;
}

module _ {P : Parser} {tokio : Tokio P} where
  -- The `match` on the error of a write: only these three tell the connection to close.
  unfoldable pub report : Sender P → Option WsError → Async (World tokio) (Unit {0})
  unfolding Internal.close
  report s none = pure tt
  report s (some WsError.connection_closed) = Internal.close s.connection_hdl
  report s (some WsError.protocol) = Internal.close s.connection_hdl
  report s (some WsError.utf8) = Internal.close s.connection_hdl
  report s (some WsError.other) = pure tt

module _ {P : Parser} {tokio : Tokio P} (wire : Wire P) where
  -- A message that cannot be serialized is logged and dropped.
  unfoldable pub send : Sender P → OurMessage P → Async (World tokio) (Unit {0})
  unfolding ws_send report
  send s m = elim (wire.to_string m) [
    | none ↦ pure tt
    | some text ↦ do e ← ws_send s.ws_sender text; report s e
  ]

  unfoldable pub handle_message : Sender P → SenderMessage P → Async (World tokio) ControlFlow
  unfolding send ws_close
  handle_message s (SenderMessage.message m) = do send s m; pure go_on
  handle_message s SenderMessage.close = do ws_close s.ws_sender; pure stop

  -- The list is what is sent until all handles are gone. The result is what is left unread.
  unfoldable pub run :
      Sender P → List (SenderMessage P) → Async (World tokio) (List (SenderMessage P))
  run s [] = pure []
  run s (m ∷ ms) = do flow ← handle_message s m; elim flow [ go_on ↦ run s ms | stop ↦ pure ms ]
