-- ===== src/Server/Acceptor.antt =====
-- src/server/acceptor.rs and its handles: the task that upgrades tcp streams to websockets.
use rrev.Prelude.{
  List, [], ◌∷◌, Result, ok, err, ControlFlow, go_on, stop, Async, pure, ◌>>=◌, ◌>>◌, if◌then◌else◌,
}
use rrev.Channel.{MpscSender, MpscReceiver, TcpStream, WsStream, SocketAddr}
use rrev.Scheme.{Parser}
use rrev.Error.{SendError}
use rrev.Connection.ConnectionHdl
use rrev.Server.Types.{
  Acceptor, AcceptorMessage, AcceptorsServerHandle, AcceptorHandle, ListenersAcceptorHandle,
}
use rrev.Server.Handles.{new_connection, passers_handle}
use rrev.Runtime.{
  Tokio, World, to_acceptor, acceptor_task, passer_task, send, spawn, new_channel, ask, or_else,
  is_ok,
}

-- `Acceptor::new`
abbrev pub new_acceptor :
    {P : Parser} → MpscReceiver AcceptorMessage → AcceptorsServerHandle P → Acceptor P
new_acceptor rx server_hdl = record { rx = rx; server_hdl = server_hdl }

module _ {P : Parser} {tokio : Tokio P} where
  -- The case of `accept_stream` where the stream could be upgraded.
  unfoldable pub open_connection :
      Acceptor P → WsStream → SocketAddr → Async (World tokio) ControlFlow
  unfolding new_channel ConnectionHdl.new spawn new_connection
  open_connection a s addr = do
    n ← new_channel
    connection_hdl ← ConnectionHdl.new s (record { channel = n })
    spawn (passer_task (record { channel = n }) (passers_handle a.server_hdl) addr)
    done ← new_connection a.server_hdl connection_hdl addr
    pure (if is_ok done then go_on else stop)

  -- A failed upgrade is logged, and the stream is dropped.
  unfoldable pub accept_stream :
      Acceptor P → TcpStream → SocketAddr → Async (World tokio) ControlFlow
  unfolding ask open_connection
  accept_stream a stream addr = do
    ws_stream ← ask (tokio.upgrade stream)
    elim ws_stream [ ok s ↦ open_connection a s addr | err _ ↦ pure go_on ]

  unfoldable pub handle_message : Acceptor P → AcceptorMessage → Async (World tokio) ControlFlow
  unfolding accept_stream
  handle_message a AcceptorMessage.close = pure stop
  handle_message a (AcceptorMessage.new_stream stream addr) = accept_stream a stream addr

  -- The list is what is sent until all senders are gone. The result is what is left unread.
  unfoldable pub run :
      Acceptor P → List AcceptorMessage → Async (World tokio) (List AcceptorMessage)
  run a [] = pure []
  run a (m ∷ ms) = do flow ← handle_message a m; elim flow [ go_on ↦ run a ms | stop ↦ pure ms ]

  -- `AcceptorHandle::new` starts the acceptor's task.
  unfoldable pub new : AcceptorsServerHandle P → Async (World tokio) AcceptorHandle
  unfolding new_channel spawn
  new server_hdl = do
    n ← new_channel
    spawn (acceptor_task (new_acceptor (record { channel = n }) server_hdl))
    pure (record { tx = record { channel = n } })

  unfoldable pub close : AcceptorHandle → Async (World tokio) (Result (Unit {0}) SendError)
  unfolding send
  close hdl = do
    done ← send (to_acceptor hdl.tx AcceptorMessage.close)
    pure (or_else SendError.send_error done)

  unfoldable pub new_stream :
      ListenersAcceptorHandle
      → TcpStream
      → SocketAddr
      → Async (World tokio) (Result (Unit {0}) SendError)
  unfolding send
  new_stream hdl stream addr = do
    done ← send (to_acceptor hdl.tx (AcceptorMessage.new_stream stream addr))
    pure (or_else SendError.send_error done)

-- `AcceptorHandle::from_tx`, for tests
abbrev pub from_tx : MpscSender AcceptorMessage → AcceptorHandle
from_tx tx = record { tx = tx }

-- `From<AcceptorHandle> for ListenersAcceptorHandle`
abbrev pub listeners_handle : AcceptorHandle → ListenersAcceptorHandle
listeners_handle value = record { tx = value.tx }
