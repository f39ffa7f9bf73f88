-- ===== src/Server/Types.antt =====
-- src/server.rs and src/server: the actors' states, their messages and their handles.
use rrev.Prelude.{List, Result}
use rrev.Prelude.Map.{Map}
use rrev.Channel.{
  MpscSender, MpscReceiver, OneshotSender, TcpStream, TcpListener, SocketAddr, IoError,
}
use rrev.Scheme.{Parser}
use rrev.Error.{ListenAddrError, ClientsError}
use rrev.Connection.Types.{ConnectionHdl, RequestHandle, Answer}
use rrev.Connection.Types

pub data ServerMessage (P : Parser) : Type 0 where
  close : ServerMessage P
  get_listen_address : OneshotSender (Result SocketAddr ListenAddrError) → ServerMessage P
  get_clients : OneshotSender (Result (List SocketAddr) ClientsError) → ServerMessage P
  new_connection : ConnectionHdl P → SocketAddr → ServerMessage P
  connection_event : (from : SocketAddr) → Types.ConnectionEvent P → ServerMessage P
  send_request : (to : SocketAddr) → OneshotSender (Answer P) → P.OurRequest → ServerMessage P
  send_event : (to : SocketAddr) → P.OurEvent → ServerMessage P

-- src/server/server_event.rs
pub record ConnectionRequest (P : Parser) : Type 0 where
  pub from : SocketAddr
  pub request : RequestHandle P

pub record ConnectionEvent (T : Type 0) : Type 0 where
  pub from : SocketAddr
  pub event : T

pub data ServerEvent (P : Parser) : Type 0 where
  close : ServerEvent P
  new_connection : SocketAddr → ServerEvent P
  connection_close : SocketAddr → ServerEvent P
  connection_request : ConnectionRequest P → ServerEvent P
  connection_event : ConnectionEvent P.TheirEvent → ServerEvent P

pub data AcceptorMessage : Type 0 where
  close : AcceptorMessage
  new_stream : TcpStream → SocketAddr → AcceptorMessage

pub data ListenerMessage : Type 0 where
  close : ListenerMessage
  get_address : OneshotSender (Result SocketAddr IoError) → ListenerMessage

-- Three views of one sender: the user's, the acceptor's and a passer's.
pub record ServerHandle (P : Parser) : Type 0 where
  pub tx : MpscSender (ServerMessage P)

pub record AcceptorsServerHandle (P : Parser) : Type 0 where
  pub tx : MpscSender (ServerMessage P)

pub record PassersServerHandle (P : Parser) : Type 0 where
  pub tx : MpscSender (ServerMessage P)

pub record AcceptorHandle : Type 0 where
  pub tx : MpscSender AcceptorMessage

pub record ListenersAcceptorHandle : Type 0 where
  pub tx : MpscSender AcceptorMessage

pub record ListenerHandle : Type 0 where
  pub tx : MpscSender ListenerMessage

pub record Server (P : Parser) : Type 0 where
  pub rx : MpscReceiver (ServerMessage P)
  pub tx : MpscSender (ServerEvent P)
  pub connections : Map SocketAddr (ConnectionHdl P)
  pub acceptor_hdl : AcceptorHandle
  pub listener_hdl : ListenerHandle

pub record Acceptor (P : Parser) : Type 0 where
  pub rx : MpscReceiver AcceptorMessage
  pub server_hdl : AcceptorsServerHandle P

pub record Listener : Type 0 where
  pub rx : MpscReceiver ListenerMessage
  pub acceptor_hdl : ListenersAcceptorHandle
  pub socket : TcpListener
