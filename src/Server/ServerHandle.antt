-- ===== src/Server/ServerHandle.antt =====
-- src/server/server_handle.rs, `ServerHandle`: the user's handle of the server.
use rrev.Prelude.{
  ℕ, true, false, String, none, some, List, Result, ok, err, Async, pure, ◌>>=◌, ◌>>◌,
  if◌then◌else◌, map_err,
}
use rrev.Channel.{MpscSender, SocketAddr, IoError}
use rrev.Scheme.{Parser}
use rrev.Error.{SendError, RequestError, TimeoutError, ListenAddrError, ClientsError}
use rrev.Connection.Types.{Answer}
use rrev.Connection.ConnectionHdl.{received}
use rrev.Server
use rrev.Server.Types.{ServerHandle, ServerMessage, ServerEvent}
use rrev.Runtime.{Tokio, World, to_server, server_task, send, spawn, new_channel, ask, or_else}

module _ {P : Parser} {tokio : Tokio P} where
  -- Starts the server's task, if its listener could be started.
  unfoldable pub new :
      String → MpscSender (ServerEvent P) → Async (World tokio) (Result (ServerHandle P) IoError)
  unfolding new_channel Server.new spawn
  new listen_addr server_event_tx = do
    n ← new_channel
    server ←
        Server.new (record { channel = n }) (record { channel = n }) server_event_tx listen_addr
    elim server [
      | err e ↦ pure (err e)
      | ok s ↦ do spawn (server_task s); pure (ok (record { tx = record { channel = n } }))
    ]

  unfoldable pub close : ServerHandle P → Async (World tokio) (Result (Unit {0}) SendError)
  unfolding send
  close hdl = do
    done ← send (to_server hdl.tx ServerMessage.close)
    pure (or_else SendError.send_error done)

  unfoldable pub get_listen_address :
      ServerHandle P → Async (World tokio) (Result SocketAddr ListenAddrError)
  unfolding new_channel send ask
  get_listen_address hdl = do
    n ← new_channel
    done ← send (to_server hdl.tx (ServerMessage.get_listen_address (record { slot = n })))
    if done
        then (do
          result ← ask (tokio.answered_address (record { slot = n }))
          elim result [ some r ↦ pure r | none ↦ pure (err ListenAddrError.recv_error) ])
        else pure (err ListenAddrError.send_error)

  unfoldable pub get_clients :
      ServerHandle P → Async (World tokio) (Result (List SocketAddr) ClientsError)
  unfolding new_channel send ask
  get_clients hdl = do
    n ← new_channel
    done ← send (to_server hdl.tx (ServerMessage.get_clients (record { slot = n })))
    if done
        then (do
          result ← ask (tokio.answered_clients (record { slot = n }))
          elim result [ some r ↦ pure r | none ↦ pure (err ClientsError.recv_error) ])
        else pure (err ClientsError.send_error)

  unfoldable pub request :
      ServerHandle P → SocketAddr → P.OurRequest → Async (World tokio) (Answer P)
  unfolding new_channel send ask
  request hdl to q = do
    n ← new_channel
    done ← send (to_server hdl.tx (ServerMessage.send_request to (record { slot = n }) q))
    if done
        then (do r ← ask (tokio.answered (record { slot = n })); pure (received r))
        else pure (err RequestError.send_error)

  -- The timeout may fire while the request waits to be sent, or while it waits for its reply.
  unfoldable pub request_timeout :
      ServerHandle P
      → SocketAddr
      → P.OurRequest
      → ℕ
      → Async (World tokio) (Result P.TheirReply TimeoutError)
  unfolding new_channel send ask
  request_timeout hdl to q duration = do
    n ← new_channel
    early ← ask (tokio.expired duration)
    elim early [
      | true ↦ pure (err TimeoutError.timeout)
      | false ↦ do
        done ← send (to_server hdl.tx (ServerMessage.send_request to (record { slot = n }) q))
        elim done [
          | false ↦ pure (err (TimeoutError.request_error RequestError.send_error))
          | true ↦ do
            late ← ask (tokio.expired duration)
            elim late [
              | true ↦ pure (err TimeoutError.timeout)
              | false ↦ do
                r ← ask (tokio.answered (record { slot = n }))
                pure (map_err TimeoutError.request_error (received r))
            ]
        ]
    ]

  unfoldable pub event :
      ServerHandle P → SocketAddr → P.OurEvent → Async (World tokio) (Result (Unit {0}) SendError)
  unfolding send
  event hdl to e = do
    done ← send (to_server hdl.tx (ServerMessage.send_event to e))
    pure (or_else SendError.send_error done)
