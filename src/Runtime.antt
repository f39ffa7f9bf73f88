-- ===== src/Runtime.antt =====
-- What the actors ask of tokio, tungstenite and serde, which are parameters: each send, each write
-- and each new task goes to an environment that answers as it likes, and is noted in a history.
use rrev.Prelude.{ℕ, Bool, true, false, Option, String, List, [], ◌∷◌, Result, ok, err, Async}
use rrev.Prelude.Map.{Map, Distinct, SameEntries}
use rrev.Channel.{
  MpscSender, MpscReceiver, OneshotSender, TcpStream, WsStream, TcpListener, SocketAddr, IoError,
  WsError,
}
use rrev.Scheme.{Parser, OurMessage, TheirMessage}
use rrev.Error.{ListenAddrError, ClientsError}
use rrev.Connection.Types.{
  Answer, ReceiverMessage, SenderMessage, InternalMessage, ConnectionMessage, ConnectionEvent,
  Connection, Receiver, Sender,
}
use rrev.Server.Types.{
  ServerMessage, ServerEvent, AcceptorMessage, ListenerMessage, PassersServerHandle, Server,
  Acceptor, Listener,
}

-- A message with the channel that it is sent over.
pub data Packet (P : Parser) : Type 0 where
  to_receiver : MpscSender ReceiverMessage → ReceiverMessage → Packet P
  to_sender : MpscSender (SenderMessage P) → SenderMessage P → Packet P
  to_internal : MpscSender (InternalMessage P) → InternalMessage P → Packet P
  to_connection : MpscSender (ConnectionMessage P) → ConnectionMessage P → Packet P
  to_owner : MpscSender (ConnectionEvent P) → ConnectionEvent P → Packet P
  to_server : MpscSender (ServerMessage P) → ServerMessage P → Packet P
  to_user : MpscSender (ServerEvent P) → ServerEvent P → Packet P
  to_acceptor : MpscSender AcceptorMessage → AcceptorMessage → Packet P
  to_listener : MpscSender ListenerMessage → ListenerMessage → Packet P
  answer : OneshotSender (Answer P) → Answer P → Packet P
  answer_address :
      OneshotSender (Result SocketAddr ListenAddrError)
      → Result SocketAddr ListenAddrError
      → Packet P
  answer_clients :
      OneshotSender (Result (List SocketAddr) ClientsError)
      → Result (List SocketAddr) ClientsError
      → Packet P
  answer_local : OneshotSender (Result SocketAddr IoError) → Result SocketAddr IoError → Packet P

-- What `tokio::spawn` is given.
pub data Task (P : Parser) : Type 0 where
  connection_task : Connection P → Task P
  receiver_task : Receiver P → Task P
  sender_task : Sender P → Task P
  server_task : Server P → Task P
  acceptor_task : Acceptor P → Task P
  listener_task : Listener → Task P
  passer_task : MpscReceiver (ConnectionEvent P) → PassersServerHandle P → SocketAddr → Task P
  -- `receive_events` of examples/ticker_client.rs
  events_task : MpscReceiver (ConnectionEvent P) → Task P

-- What a task has done. A send is noted with its outcome, `true` for `Ok`.
pub data Entry (P : Parser) : Type 0 where
  sent : Packet P → Bool → Entry P
  spawned : Task P → Entry P
  wrote : WsStream → String → Option WsError → Entry P
  closed : WsStream → Entry P

-- The runtime and the other tasks. Each operation may depend on all that went before, and a send
-- that ends may find the channel open or closed. `fresh` names a new channel.
pub record Tokio (P : Parser) : Type 1 where
  pub Env : Type 0
  pub deliver : Packet P → Env → Bool × Env
  pub write : WsStream → String → Env → Option WsError × Env
  pub shut : WsStream → Env → Env
  pub fresh : Env → ℕ × Env
  -- What comes back on a oneshot; `none` if its sender was dropped.
  pub answered : OneshotSender (Answer P) → Env → Option (Answer P) × Env
  pub answered_address :
      OneshotSender (Result SocketAddr ListenAddrError)
      → Env
      → Option (Result SocketAddr ListenAddrError) × Env
  pub answered_clients :
      OneshotSender (Result (List SocketAddr) ClientsError)
      → Env
      → Option (Result (List SocketAddr) ClientsError) × Env
  pub answered_local :
      OneshotSender (Result SocketAddr IoError) → Env → Option (Result SocketAddr IoError) × Env
  -- Whether a timeout of that length fires while the task waits at the next `.await`.
  pub expired : ℕ → Env → Bool × Env
  -- The order in which the traversal of a `HashMap` meets its entries.
  pub traverse : {K V : Type 0} → Map K V → Env → Map K V × Env
  -- `accept_async`, `connect_async`, `TcpListener::bind` and `local_addr`
  pub upgrade : TcpStream → Env → Result WsStream WsError × Env
  pub connect : String → Env → Result WsStream WsError × Env
  pub bind : String → Env → Result TcpListener IoError × Env
  pub local_addr : TcpListener → Env → Result SocketAddr IoError × Env

-- A traversal of a `HashMap` meets every entry once, and nothing else.
pub record Traverses {P : Parser} (tokio : Tokio P) : Type 1 where
  pub each_once :
      {K V : Type 0} (dec : Discrete K) (m : Map K V) (e : tokio.Env)
      → Distinct dec m
      → SameEntries dec (tokio.traverse m e).0 m

-- serde_json and the text of a websocket message. `none` is an error.
pub record Wire (P : Parser) : Type 1 where
  pub Frame : Type 0
  pub to_text : Frame → Option String
  pub to_string : OurMessage P → Option String
  pub from_str : String → Option (TheirMessage P)

module _ {P : Parser} (tokio : Tokio P) where
  -- The history has the newest entry first.
  pub record World : Type 0 where
    pub env : tokio.Env
    pub history : List (Entry P)

module _ {P : Parser} {tokio : Tokio P} where
  -- `tx.send(m).await` on an mpsc channel, `tx.send(m)` on a oneshot.
  unfoldable pub send : Packet P → Async (World tokio) Bool
  send p w =
      let (done, env') = tokio.deliver p w.env in
      (done, record { env = env'; history = sent p done ∷ w.history })

  unfoldable pub spawn : Task P → Async (World tokio) (Unit {0})
  spawn t w = (tt, record w { history = spawned t ∷ w.history })

  unfoldable pub ws_send : WsStream → String → Async (World tokio) (Option WsError)
  ws_send s m w =
      let (e, env') = tokio.write s m w.env in
      (e, record { env = env'; history = wrote s m e ∷ w.history })

  unfoldable pub ws_close : WsStream → Async (World tokio) (Unit {0})
  ws_close s w = (tt, record { env = tokio.shut s w.env; history = closed s ∷ w.history })

  -- An operation of the environment that leaves no entry in the history.
  unfoldable pub ask : {A : Type 0} → (tokio.Env → A × tokio.Env) → Async (World tokio) A
  ask f w = let (a, env') = f w.env in (a, record w { env = env' })

  -- The name of a new channel, `mpsc::channel(1)` or `oneshot::channel()`.
  unfoldable pub new_channel : Async (World tokio) ℕ
  new_channel w = let (n, env') = tokio.fresh w.env in (n, record w { env = env' })

-- `.map_err(|_| e)` on the result of a send, `.is_err()`.
abbrev pub or_else : {E : Type 0} → E → Bool → Result (Unit {0}) E
or_else e true = ok tt
or_else e false = err e

abbrev pub is_ok : {A E : Type 0} → Result A E → Bool
is_ok (ok _) = true
is_ok (err _) = false

-- The messages of a history, whether they arrived or not, newest first.
abbrev pub packets : {P : Parser} → List (Entry P) → List (Packet P)
packets [] = []
packets (sent p _ ∷ h) = p ∷ packets h
packets (_ ∷ h) = packets h
