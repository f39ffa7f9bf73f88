-- ===== src/Server/Listener.antt =====
-- src/server/listener.rs and its handle: the task that takes tcp connections from the socket.
use rrev.Prelude.{
  String, Option, none, some, List, [], ◌∷◌, Result, ok, err, ControlFlow, go_on, stop, Async, pure,
  ◌>>=◌, ◌>>◌, if◌then◌else◌, map_err,
}
use rrev.Channel.{MpscReceiver, TcpStream, SocketAddr, IoError}
use rrev.Scheme.{Parser}
use rrev.Error.{SendError, ListenAddrError}
use rrev.Server.Types.{Listener, ListenerMessage, ListenerHandle, ListenersAcceptorHandle}
use rrev.Server.Acceptor
use rrev.Runtime.{
  Tokio, World, to_listener, answer_local, listener_task, send, spawn, new_channel, ask, or_else,
  is_ok,
}

-- What one turn of `select!` takes: a message, or `none` when all handles are gone; or what the
-- socket accepts.
pub data ListenerTurn : Type 0 where
  received : Option ListenerMessage → ListenerTurn
  accepted : Result (TcpStream × SocketAddr) IoError → ListenerTurn

module _ {P : Parser} {tokio : Tokio P} where
  unfoldable pub new :
      MpscReceiver ListenerMessage
      → ListenersAcceptorHandle
      → String
      → Async (World tokio) (Result Listener IoError)
  unfolding ask
  new rx acceptor_hdl addr = do
    bound ← ask (tokio.bind addr)
    elim bound [
      | err e ↦ pure (err e)
      | ok socket ↦ pure (ok (record { rx = rx; acceptor_hdl = acceptor_hdl; socket = socket }))
    ]

  unfoldable pub handle_message : Listener → ListenerMessage → Async (World tokio) ControlFlow
  unfolding ask send
  handle_message l ListenerMessage.close = pure stop
  handle_message l (ListenerMessage.get_address tx) = do
    addr ← ask (tokio.local_addr l.socket)
    send (answer_local tx addr)
    pure go_on

  unfoldable pub handle_new_stream :
      Listener → TcpStream → SocketAddr → Async (World tokio) ControlFlow
  unfolding Acceptor.new_stream
  handle_new_stream l stream addr = do
    done ← Acceptor.new_stream l.acceptor_hdl stream addr
    pure (if is_ok done then go_on else stop)

  unfoldable pub handle_turn : Listener → ListenerTurn → Async (World tokio) ControlFlow
  unfolding handle_message handle_new_stream
  handle_turn l (received none) = pure stop
  handle_turn l (received (some m)) = handle_message l m
  handle_turn l (accepted (ok (stream, addr))) = handle_new_stream l stream addr
  handle_turn l (accepted (err _)) = pure go_on

  -- How the loop stands after these turns, and the turns that it did not take.
  unfoldable pub run :
      Listener → List ListenerTurn → Async (World tokio) (ControlFlow × List ListenerTurn)
  run l [] = pure (go_on, [])
  run l (t ∷ ts) = do
    flow ← handle_turn l t
    elim flow [ go_on ↦ run l ts | stop ↦ pure (stop, ts) ]

  -- `ListenerHandle::new` starts the listener's task, if the socket can be bound.
  unfoldable pub new_handle :
      ListenersAcceptorHandle → String → Async (World tokio) (Result ListenerHandle IoError)
  unfolding new new_channel spawn
  new_handle acceptor_hdl addr = do
    n ← new_channel
    listener ← new (record { channel = n }) acceptor_hdl addr
    elim listener [
      | err e ↦ pure (err e)
      | ok l ↦ do spawn (listener_task l); pure (ok (record { tx = record { channel = n } }))
    ]

  unfoldable pub close : ListenerHandle → Async (World tokio) (Result (Unit {0}) SendError)
  unfolding send
  close hdl = do
    done ← send (to_listener hdl.tx ListenerMessage.close)
    pure (or_else SendError.send_error done)

  unfoldable pub get_addr : ListenerHandle → Async (World tokio) (Result SocketAddr ListenAddrError)
  unfolding new_channel send ask
  get_addr hdl = do
    n ← new_channel
    done ← send (to_listener hdl.tx (ListenerMessage.get_address (record { slot = n })))
    if done
        then (do
          addr ← ask (tokio.answered_local (record { slot = n }))
          elim addr [
            | none ↦ pure (err ListenAddrError.recv_error)
            | some a ↦ pure (map_err ListenAddrError.io a)
          ])
        else pure (err ListenAddrError.send_error)
