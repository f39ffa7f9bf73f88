-- ===== src/Trials.antt =====
-- The test modules at the ends of src/connection.rs, src/connection/receiver.rs,
-- src/connection/sender.rs, src/client.rs, src/server.rs and src/server/listener.rs: what they share.
pub mod OfConnection
pub mod OfReceiver
pub mod OfSender
pub mod OfClient
pub mod OfServer
pub mod OfListener
use Prim.Native.String.{◌++◌ as ◌^^◌}
use text.Mathlib.Text.{◌==◌}
use text.Mathlib.TextEquality.{eq_iff}
use rrev.Prelude.{
  ℕ, Bool, true, false, Option, none, some, String, List, Result, ok, err, Async, ◌≡◌, refl, ◌&&◌,
  ℕ_discrete,
}
use rrev.Prelude.Map.{Map}
use rrev.Channel.{
  MpscSender, MpscReceiver, TcpStream, WsStream, TcpListener, SocketAddr, IoError, WsError,
}
use rrev.Scheme.{string_parser, Message, OurMessage}
use rrev.Connection.Types.{ConnectionHdl, ConnectionEvent, InternalMessage, RequestHandle}
use rrev.Runtime.{Tokio, World, Wire, ask}

-- What may panic, in a call of `expect` or `unwrap` or in an assertion: `none` is a panic.
abbrev pub Checked : Type 0 → Type 0 → Type 0
Checked W A = Async W (Option A)

infixl 5 ◌>>=◌ ◌>>◌
abbrev pub ◌>>=◌ : {W A B : Type 0} → Checked W A → (A → Checked W B) → Checked W B
◌>>=◌ m f w = let (r, w') = m w in elim r [ none ↦ (none, w') | some a ↦ f a w' ]

abbrev pub ◌>>◌ : {W A B : Type 0} → Checked W A → Checked W B → Checked W B
◌>>◌ m k = ◌>>=◌ m (λ _. k)

abbrev pub ret : {W A : Type 0} → A → Checked W A
ret a w = (some a, w)

abbrev pub panic : {W A : Type 0} → Checked W A
panic w = (none, w)

-- What cannot panic.
abbrev pub lift : {W A : Type 0} → Async W A → Checked W A
lift m w = let (a, w') = m w in (some a, w')

abbrev pub unwrap : {W A : Type 0} → Option A → Checked W A
unwrap o w = (o, w)

abbrev pub get_ok : {A E : Type 0} → Result A E → Option A
get_ok (ok a) = some a
get_ok (err _) = none

-- `.await.expect(…)`, for a `Result` and for an `Option`.
abbrev pub expect : {W A E : Type 0} → Async W (Result A E) → Checked W A
expect m w = let (r, w') = m w in (get_ok r, w')

abbrev pub expect_some : {W A : Type 0} → Async W (Option A) → Checked W A
expect_some m = m

abbrev pub assert : {W : Type 0} → Bool → Checked W (Unit {0})
assert true = ret tt
assert false = panic

-- `if let` with a panic in the other cases.
abbrev pub as_request : ConnectionEvent string_parser → Option (RequestHandle string_parser)
as_request (ConnectionEvent.request_message r) = some r
as_request _ = none

abbrev pub as_event : ConnectionEvent string_parser → Option String
as_event (ConnectionEvent.event_message e) = some e
as_event _ = none

abbrev decided : {A : Type 0} → Dec A → Bool
decided (yes _) = true
decided (no _) = false

-- The derived `==` of messages
abbrev same_message : OurMessage string_parser → OurMessage string_parser → Bool
same_message (Message.request r) (Message.request q) =
    decided (ℕ_discrete r.id q.id) && r.payload == q.payload
same_message (Message.reply r) (Message.reply q) =
    decided (ℕ_discrete r.id q.id) && r.payload == q.payload
same_message (Message.event d) (Message.event e) = d == e
same_message _ _ = false

-- `assert_eq!(…, InternalMessage::NewMessage(m))`
abbrev pub is_message : InternalMessage string_parser → OurMessage string_parser → Bool
is_message (InternalMessage.new_message m) n = same_message m n
is_message InternalMessage.close n = false

-- `ServerMessage` of the tests of src/client.rs
pub data ServerMessage : Type 0 where
  new_connection : ConnectionHdl string_parser → ServerMessage
  address : String → ServerMessage

-- What the tests give to `tokio::spawn`.
pub data Helper : Type 0 where
  send_back_helper : MpscSender String → WsStream → Helper
  send_to_helper : MpscReceiver String → WsStream → Helper
  send_client_helper : String → Option (MpscSender String) → Option (MpscReceiver String) → Helper
  responsive_client_helper : String → Map String String → Helper
  close_client_helper : String → Helper
  receiver_client_helper : String → MpscReceiver (Option String) → Helper
  sender_client_helper : String → MpscSender String → Helper
  server_helper :
      MpscSender ServerMessage
      → MpscSender (ConnectionEvent string_parser)
      → MpscReceiver (Unit {0})
      → Helper
  reply_helper : MpscReceiver (ConnectionEvent string_parser) → Helper

-- What the tests ask of other packages, besides what the library asks of them.
pub record Bench (tokio : Tokio string_parser) : Type 1 where
  pub wire : Wire string_parser
  -- `is_text`, and the text that `to_string` writes of a websocket message
  pub is_text : wire.Frame → Bool
  pub shown : wire.Frame → String
  -- `Url::parse`; a url is its text.
  pub parse : String → Option String
  -- `to_string` of an address and of its ip
  pub addr_text : SocketAddr → String
  pub ip_text : ℕ → String
  -- `TcpListener::accept`; `next` and `close` of a websocket
  pub accept : TcpListener → tokio.Env → Result (TcpStream × SocketAddr) IoError × tokio.Env
  pub next : WsStream → tokio.Env → Option (Result wire.Frame WsError) × tokio.Env
  pub close : WsStream → tokio.Env → Result (Unit {0}) WsError × tokio.Env
  -- `send` and `recv` on the channels of the tests; `tokio::spawn` of a helper
  pub push : {A : Type 0} → MpscSender A → A → tokio.Env → Result (Unit {0}) (Unit {0}) × tokio.Env
  pub recv : {A : Type 0} → MpscReceiver A → tokio.Env → Option A × tokio.Env
  pub start : Helper → tokio.Env → Unit {0} × tokio.Env
  -- The port in a format; `io::ErrorKind::AddrNotAvailable`; `as_bytes` and `str::from_utf8`
  pub port_text : ℕ → String
  pub addr_not_available : IoError → Bool
  pub bytes : String → List ℕ
  pub from_utf8 : List ℕ → Option String
  -- `TcpStream::connect`, `write_all`, and `read_exact` for a number of bytes
  pub connect_tcp : String → tokio.Env → Result TcpStream IoError × tokio.Env
  pub write_all : TcpStream → List ℕ → tokio.Env → Result (Unit {0}) IoError × tokio.Env
  pub read_exact : TcpStream → ℕ → tokio.Env → Result (List ℕ) IoError × tokio.Env

-- Equality of texts, for the keys of maps.
unfoldable pub String-discrete : Discrete String
String-discrete s t =
    elim (s == t) as (λ b. (s == t) ≡ b → Dec (s ≡ t)) [
      | true ↦ λ e. yes ((eq_iff s t).0 e)
      | false ↦ λ n. no (λ e. cc ((eq_iff s t).1 e, n))
    ]
      refl

module _ {tokio : Tokio string_parser} (bench : Bench tokio) where
  -- `tokio::time::timeout(…, rx.recv())`, with `expect` on both results. Durations are in ms.
  abbrev pub recv_within : {A : Type 0} → ℕ → MpscReceiver A → Checked (World tokio) A
  recv_within duration rx = do
    late ← lift (ask (tokio.expired duration))
    elim late [ true ↦ panic | false ↦ expect_some (ask (bench.recv rx)) ]

  abbrev pub start_helper : Helper → Checked (World tokio) (Unit {0})
  start_helper h = lift (ask (bench.start h))

  -- `socket`, of which three of the test modules have a copy.
  unfoldable pub socket : Checked (World tokio) (TcpListener × String)
  unfolding ask
  socket = do
    listener ← expect (ask (tokio.bind "127.0.0.1:0"))
    addr ← expect (ask (tokio.local_addr listener))
    ret (listener, bench.addr_text addr)

  -- The connection to a server: `connect_async` on the url of the address.
  unfoldable pub client : String → Checked (World tokio) WsStream
  unfolding ask
  client addr = do url ← unwrap (bench.parse ("ws://" ^^ addr)); expect (ask (tokio.connect url))

  -- The first stream that comes, upgraded.
  unfoldable pub accept_ws : TcpListener → Checked (World tokio) WsStream
  unfolding ask
  accept_ws listener = do
    accepted ← expect (ask (bench.accept listener))
    expect (ask (tokio.upgrade accepted.0))
