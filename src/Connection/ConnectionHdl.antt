-- ===== src/Connection/ConnectionHdl.antt =====
-- src/connection/connection_hdl.rs and `connect` of src/client.rs: the user's handle of a
-- connection.
use rrev.Prelude.{
  ℕ, true, false, Option, none, some, String, Result, ok, err, Async, pure, ◌>>=◌, ◌>>◌, map_err,
}
use rrev.Channel.{MpscSender, OneshotSender, WsStream, WsError}
use rrev.Scheme.{Parser}
use rrev.Error.{SendError, RequestError, TimeoutError}
use rrev.Connection
use rrev.Connection.Types.{Answer, ConnectionHdl, ConnectionMessage, ConnectionEvent}
use rrev.Runtime.{
  Tokio, World, to_connection, connection_task, send, spawn, new_channel, ask, or_else,
}

-- What `rx.await` gives to the one who made the request.
abbrev pub received : {A : Type 0} → Option (Result A RequestError) → Result A RequestError
received (some r) = r
received none = err RequestError.recv_error

module _ {P : Parser} {tokio : Tokio P} where
  -- Starts the connection's task.
  unfoldable pub new :
      WsStream → MpscSender (ConnectionEvent P) → Async (World tokio) (ConnectionHdl P)
  unfolding new_channel spawn Connection.new
  new stream event_tx = do
    n ← new_channel
    connection ← Connection.new (record { channel = n }) stream event_tx
    spawn (connection_task connection)
    pure (record { tx = record { channel = n } })

  unfoldable pub close : ConnectionHdl P → Async (World tokio) (Result (Unit {0}) SendError)
  unfolding send
  close hdl = do
    done ← send (to_connection hdl.tx ConnectionMessage.close)
    pure (or_else SendError.send_error done)

  unfoldable pub request_with_sender :
      ConnectionHdl P
      → P.OurRequest
      → OneshotSender (Answer P)
      → Async (World tokio) (Result (Unit {0}) RequestError)
  unfolding send
  request_with_sender hdl q tx = do
    done ← send (to_connection hdl.tx (ConnectionMessage.request q tx))
    pure (or_else RequestError.send_error done)

  unfoldable pub request : ConnectionHdl P → P.OurRequest → Async (World tokio) (Answer P)
  unfolding new_channel request_with_sender ask
  request hdl q = do
    n ← new_channel
    done ← request_with_sender hdl q (record { slot = n })
    elim done [
      | err e ↦ pure (err e)
      | ok _ ↦ do r ← ask (tokio.answered (record { slot = n })); pure (received r)
    ]

  -- The timeout may fire while the request waits to be sent, or while it waits for its reply.
  unfoldable pub request_timeout :
      ConnectionHdl P → P.OurRequest → ℕ → Async (World tokio) (Result P.TheirReply TimeoutError)
  unfolding new_channel request_with_sender ask
  request_timeout hdl q duration = do
    n ← new_channel
    early ← ask (tokio.expired duration)
    elim early [
      | true ↦ pure (err TimeoutError.timeout)
      | false ↦ do
        done ← request_with_sender hdl q (record { slot = n })
        elim done [
          | err e ↦ pure (err (TimeoutError.request_error e))
          | ok _ ↦ do
            late ← ask (tokio.expired duration)
            elim late [
              | true ↦ pure (err TimeoutError.timeout)
              | false ↦ do
                r ← ask (tokio.answered (record { slot = n }))
                pure (map_err TimeoutError.request_error (received r))
            ]
        ]
    ]

  unfoldable pub event :
      ConnectionHdl P → P.OurEvent → Async (World tokio) (Result (Unit {0}) SendError)
  unfolding send
  event hdl e = do
    done ← send (to_connection hdl.tx (ConnectionMessage.event e))
    pure (or_else SendError.send_error done)

  -- `client::connect`
  unfoldable pub connect :
      String
      → MpscSender (ConnectionEvent P)
      → Async (World tokio) (Result (ConnectionHdl P) WsError)
  unfolding new ask
  connect url event_tx = do
    stream ← ask (tokio.connect url)
    elim stream [ err e ↦ pure (err e) | ok s ↦ do hdl ← new s event_tx; pure (ok hdl) ]
