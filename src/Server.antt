-- ===== src/Server.antt =====
-- src/server.rs: the server's task. It keeps the handles of the open connections by address, passes
-- their events to the user with the address, and the user's requests and events to them.
pub mod Types
pub mod Handles
pub mod ConnectionPasser
pub mod Acceptor
pub mod Listener
pub mod Forwarding
pub mod ServerHandle
pub mod Calls
pub mod Wiring
pub mod Accepting
pub mod Starting
pub mod SameAddress
pub mod Registry
pub mod Clients
pub mod Shutdown
pub mod Queries
pub mod Refinement
pub mod Machine
pub mod Waiting
pub mod TaskSteps
pub mod Keeping
pub mod Steps
pub mod Flood
pub mod Stall
pub mod Silence
pub mod Deadlock
pub mod Query
pub mod Inside
pub mod Waits
pub mod Settled
pub mod Standing
pub mod Weight
pub mod OwnSteps
pub mod Stuck
pub mod StreamDeadlock
pub mod Alive
pub mod Listening
pub mod Pauses
pub mod Delivery
pub mod OneAddress
pub mod Sending
pub mod Addresses
use rrev.Prelude.{
  String, Bool, true, false, Option, none, some, List, [], ◌∷◌, Result, ok, err, ControlFlow, go_on,
  stop, Async, pure, ◌>>=◌, ◌>>◌, if◌then◌else◌,
}
use rrev.Prelude.Map.{Map, get, is_some, insert, remove, keys}
use rrev.Channel.{MpscSender, MpscReceiver, OneshotSender, SocketAddr, SocketAddr-discrete, IoError}
use rrev.Scheme.{Parser}
use rrev.Error.{ListenAddrError, ClientsError}
use rrev.Connection.Types.{ConnectionHdl, Answer}
use rrev.Connection.Types as ConnectionTypes
use rrev.Connection.ConnectionHdl
use rrev.Runtime.{Tokio, World, to_user, answer_address, answer_clients, send, ask, is_ok}
use Types.{Server, ServerMessage, ServerEvent}

-- How the loop of `run` stands: the state, whether it was left, and the messages not taken.
pub record Serving (P : Parser) : Type 0 where
  pub state : Server P
  pub flow : ControlFlow
  pub unread : List (ServerMessage P)

module _ {P : Parser} {tokio : Tokio P} where
  -- Starts the acceptor and, if the address can be bound, the listener.
  unfoldable pub new :
      MpscReceiver (ServerMessage P)
      → MpscSender (ServerMessage P)
      → MpscSender (ServerEvent P)
      → String
      → Async (World tokio) (Result (Server P) IoError)
  unfolding Acceptor.new Listener.new_handle
  new rx message_tx event_tx listen_addr = do
    acceptor_hdl ← Acceptor.new (Handles.acceptors_handle message_tx)
    listener ← Listener.new_handle {P = P} (Acceptor.listeners_handle acceptor_hdl) listen_addr
    elim listener [
      | err e ↦ pure (err e)
      | ok listener_hdl ↦ pure (
          ok (record {
            rx = rx;
            tx = event_tx;
            connections = [];
            acceptor_hdl = acceptor_hdl;
            listener_hdl = listener_hdl;
          }))
    ]

  unfoldable pub get_listen_address :
      Server P → OneshotSender (Result SocketAddr ListenAddrError) → Async (World tokio) (Unit {0})
  unfolding Listener.get_addr send
  get_listen_address s tx = do
    try_addr ← Listener.get_addr s.listener_hdl
    send (answer_address tx try_addr)
    pure tt

  unfoldable pub get_clients :
      Server P
      → OneshotSender (Result (List SocketAddr) ClientsError)
      → Async (World tokio) (Unit {0})
  unfolding ask send
  get_clients s tx = do
    clients ← ask (tokio.traverse s.connections)
    send (answer_clients tx (ok (keys clients)))
    pure tt

  -- A connection from an address that is already there is dropped, and no event tells of it.
  unfoldable pub new_connection :
      Server P → ConnectionHdl P → SocketAddr → Async (World tokio) (Server P)
  unfolding insert send
  new_connection s connection addr =
      if is_some (get SocketAddr-discrete addr s.connections) then pure s else do
        let s' : Server P = record s {
          connections = insert SocketAddr-discrete addr connection s.connections;
        }
        send (to_user s.tx (ServerEvent.new_connection addr))
        pure s'

  -- The close event of a connection that is not there is passed on too.
  unfoldable pub connection_event :
      Server P
      → ConnectionTypes.ConnectionEvent P
      → SocketAddr
      → Async (World tokio) (Server P × ControlFlow)
  unfolding remove send
  connection_event s ConnectionTypes.ConnectionEvent.close addr = do
    let s' : Server P = record s { connections = (remove SocketAddr-discrete addr s.connections).1 }
    done ← send (to_user s.tx (ServerEvent.connection_close addr))
    pure (s', if done then go_on else stop)
  connection_event s (ConnectionTypes.ConnectionEvent.event_message e) addr = do
    done ← send (to_user s.tx (ServerEvent.connection_event (record { from = addr; event = e })))
    pure (s, if done then go_on else stop)
  connection_event s (ConnectionTypes.ConnectionEvent.request_message r) addr = do
    done ←
        send (to_user s.tx (ServerEvent.connection_request (record { from = addr; request = r })))
    pure (s, if done then go_on else stop)

  -- A request to an unknown address is dropped, and its oneshot with it.
  unfoldable pub send_request :
      Server P
      → SocketAddr
      → P.OurRequest
      → OneshotSender (Answer P)
      → Async (World tokio) (Server P)
  unfolding ConnectionHdl.request_with_sender remove
  send_request s to request tx = elim (get SocketAddr-discrete to s.connections) [
    | some connection_hdl ↦ do
      done ← ConnectionHdl.request_with_sender connection_hdl request tx
      pure (
          if is_ok done
          then s
          else record s { connections = (remove SocketAddr-discrete to s.connections).1 })
    | none ↦ pure s
  ]

  unfoldable pub send_event : Server P → SocketAddr → P.OurEvent → Async (World tokio) (Server P)
  unfolding ConnectionHdl.event remove
  send_event s to event = elim (get SocketAddr-discrete to s.connections) [
    | some connection_hdl ↦ do
      done ← ConnectionHdl.event connection_hdl event
      pure (
          if is_ok done
          then s
          else record s { connections = (remove SocketAddr-discrete to s.connections).1 })
    | none ↦ pure s
  ]

  unfoldable pub handle_message :
      Server P → ServerMessage P → Async (World tokio) (Server P × ControlFlow)
  unfolding get_listen_address send_request send_event get_clients new_connection connection_event
  handle_message s ServerMessage.close = pure (s, stop)
  handle_message s (ServerMessage.get_listen_address tx) = do
    get_listen_address s tx
    pure (s, go_on)
  handle_message s (ServerMessage.send_request to tx request) = do
    s' ← send_request s to request tx
    pure (s', go_on)
  handle_message s (ServerMessage.send_event to event) = do
    s' ← send_event s to event
    pure (s', go_on)
  handle_message s (ServerMessage.get_clients tx) = do get_clients s tx; pure (s, go_on)
  handle_message s (ServerMessage.new_connection connection addr) = do
    s' ← new_connection s connection addr
    pure (s', go_on)
  handle_message s (ServerMessage.connection_event from event) = connection_event s event from

  -- The loop of `run`, over what its channel brings.
  unfoldable pub serve : Server P → List (ServerMessage P) → Async (World tokio) (Serving P)
  serve s [] = pure (record { state = s; flow = go_on; unread = [] })
  serve s (m ∷ ms) = do
    (s', flow) ← handle_message s m
    elim flow [
      | go_on ↦ serve s' ms
      | stop ↦ pure (record { state = s'; flow = stop; unread = ms })
    ]

  -- Failed sends are only logged, here and below.
  unfoldable pub close_connections :
      Map SocketAddr (ConnectionHdl P) → Async (World tokio) (Unit {0})
  unfolding ConnectionHdl.close
  close_connections [] = pure tt
  close_connections ((_, connection_hdl) ∷ rest) = do
    ConnectionHdl.close connection_hdl
    close_connections rest

  unfoldable pub close_all : Server P → Async (World tokio) (Unit {0})
  unfolding ask close_connections Acceptor.close Listener.close
  close_all s = do
    connections ← ask (tokio.traverse s.connections)
    close_connections connections
    Acceptor.close s.acceptor_hdl
    Listener.close s.listener_hdl
    pure tt

  -- The whole task. Where the list ends all senders are gone, and `recv` gives `None`.
  unfoldable pub run : Server P → List (ServerMessage P) → Async (World tokio) (Serving P)
  run s ms = do p ← serve s ms; close_all p.state; pure p
