-- ===== src/Channel.antt =====
-- The values of tokio, std and tungstenite that the code passes on and does not look into: ends of
-- channels, streams, addresses and errors. Each is a token that says which one it is.
use rrev.Prelude.{ℕ, ℕ_discrete}

-- `mpsc::Sender<T>`; clones of a sender are the same token.
pub record MpscSender (T : Type 0) : Type 0 where
  pub channel : ℕ

-- `mpsc::Receiver<T>`
pub record MpscReceiver (T : Type 0) : Type 0 where
  pub channel : ℕ

-- `oneshot::Sender<T>`
pub record OneshotSender (T : Type 0) : Type 0 where
  pub slot : ℕ

pub record TcpStream : Type 0 where
  pub handle : ℕ

-- `WebSocketStream<MaybeTlsStream<TcpStream>>`, whole or one of its halves
pub record WsStream : Type 0 where
  pub handle : ℕ

pub record SocketAddr : Type 0 where
  pub ip : ℕ
  pub port : ℕ

unfoldable pub SocketAddr-discrete : Discrete SocketAddr
SocketAddr-discrete = hlevel ℕ_discrete

pub record IoError : Type 0 where
  pub code : ℕ

-- `tungstenite::Error`, as far as the code tells its variants apart
pub data WsError : Type 0 where
  connection_closed protocol utf8 other : WsError

-- `net::TcpListener`
pub record TcpListener : Type 0 where
  pub handle : ℕ
