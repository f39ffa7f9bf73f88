-- ===== src/Trials/OfServer.antt =====
-- src/server.rs, `mod tests`.
use Prim.Native.String.{◌++◌ as ◌^^◌}
use text.Mathlib.Text.{◌==◌}
use rrev.Prelude.{ℕ, Bool, true, false, Option, none, some, List, [], ◌∷◌, Result, Async}
use rrev.Channel.{MpscReceiver, SocketAddr}
use rrev.Scheme.{string_parser}
use rrev.Connection.Types.{ConnectionHdl, ConnectionEvent}
use rrev.Connection.ConnectionHdl as Connection
use rrev.Connection.RequestHandle as RequestHandle
use rrev.Server.Types.{ServerHandle, ServerEvent}
use rrev.Server.ServerHandle as Server
use rrev.Runtime.{Tokio, World, ask, new_channel}
use rrev.Trials.{
  Checked, ◌>>=◌, ◌>>◌, ret, panic, lift, unwrap, expect, assert, Helper, Bench, recv_within,
  start_helper, as_event, as_request,
}

abbrev is_empty : List SocketAddr → Bool
is_empty [] = true
is_empty _ = false

-- `assert_eq!(clients.len(), 1)` and `clients.get(0)`
abbrev only : List SocketAddr → Option SocketAddr
only (addr ∷ []) = some addr
only _ = none

abbrev as_new_connection : ServerEvent string_parser → Option SocketAddr
as_new_connection (ServerEvent.new_connection addr) = some addr
as_new_connection _ = none

abbrev is_connection_close : ServerEvent string_parser → Bool
is_connection_close (ServerEvent.connection_close _) = true
is_connection_close _ = false

-- A server that runs: its handle, its address, and the channel of its events.
pub record Started : Type 0 where
  pub hdl : ServerHandle string_parser
  pub addr : SocketAddr
  pub rx : MpscReceiver (ServerEvent string_parser)

-- A client with its channel of events.
pub record Client : Type 0 where
  pub hdl : ConnectionHdl string_parser
  pub rx : MpscReceiver (ConnectionEvent string_parser)

module _ {tokio : Tokio string_parser} (bench : Bench tokio) where
  abbrev assert_ip : SocketAddr → Checked (World tokio) (Unit {0})
  assert_ip addr = assert (bench.ip_text addr.ip == "127.0.0.1")

  -- A timeout that fires before or after the call's effects; with `expect` on both results.
  abbrev within : {A E : Type 0} → ℕ → Async (World tokio) (Result A E) → Checked (World tokio) A
  within duration m = do
    early ← lift (ask (tokio.expired duration))
    elim early [
      | true ↦ panic
      | false ↦ do
        a ← expect m
        late ← lift (ask (tokio.expired duration))
        elim late [ true ↦ panic | false ↦ ret a ]
    ]

  -- How every one of the tests begins.
  unfoldable pub start : Checked (World tokio) Started
  unfolding ask new_channel Server.new Server.get_listen_address
  start = do
    n ← lift new_channel
    server_hdl ← expect (Server.new "127.0.0.1:0" (record { channel = n }))
    address ← within 100 (Server.get_listen_address server_hdl)
    assert_ip address
    ret (record { hdl = server_hdl; addr = address; rx = record { channel = n } })

  -- How three of them have a client connect.
  unfoldable pub connect_client : SocketAddr → Checked (World tokio) Client
  unfolding new_channel Connection.connect
  connect_client address = do
    url ← unwrap (bench.parse ("ws://" ^^ bench.addr_text address))
    n ← lift new_channel
    connection_hdl ← expect (Connection.connect url (record { channel = n }))
    ret (record { hdl = connection_hdl; rx = record { channel = n } })

  -- How they find the client's address.
  unfoldable pub only_client : ServerHandle string_parser → Checked (World tokio) SocketAddr
  unfolding Server.get_clients
  only_client server_hdl = do
    clients ← expect (Server.get_clients server_hdl)
    addr ← unwrap (only clients)
    assert_ip addr
    ret addr

  unfoldable pub check_get_address : Checked (World tokio) (Unit {0})
  unfolding start
  check_get_address = do start; ret tt

  -- That the client could connect is not asserted here.
  unfoldable pub check_connect : Checked (World tokio) (Unit {0})
  unfolding ask start new_channel Connection.connect
  check_connect = do
    s ← start
    url ← unwrap (bench.parse ("ws://" ^^ bench.addr_text s.addr))
    n ← lift new_channel
    lift (Connection.connect {P = string_parser} url (record { channel = n }))
    server_message ← recv_within bench 100 s.rx
    connection_addr ← unwrap (as_new_connection server_message)
    assert_ip connection_addr

  unfoldable pub check_get_clients : Checked (World tokio) (Unit {0})
  unfolding ask start connect_client only_client Server.get_clients Connection.close
  check_get_clients = do
    s ← start
    before ← expect (Server.get_clients s.hdl)
    assert (is_empty before)
    c ← connect_client s.addr
    only_client s.hdl
    server_message ← recv_within bench 100 s.rx
    connection_addr ← unwrap (as_new_connection server_message)
    assert_ip connection_addr
    expect (Connection.close c.hdl)
    close_message ← recv_within bench 100 s.rx
    assert (is_connection_close close_message)
    after ← expect (Server.get_clients s.hdl)
    assert (is_empty after)

  -- The closure of `check_send_request`.
  unfoldable pub reply_closure :
      MpscReceiver (ConnectionEvent string_parser) → Checked (World tokio) (Unit {0})
  unfolding ask RequestHandle.complete
  reply_closure client_rx = do
    client_event ← recv_within bench 100 client_rx
    client_request ← unwrap (as_request client_event)
    assert (RequestHandle.get_request client_request == "test request")
    expect (RequestHandle.complete client_request "test reply")

  unfoldable pub check_send_request : Checked (World tokio) (Unit {0})
  unfolding ask start connect_client only_client Server.request_timeout
  check_send_request = do
    s ← start
    c ← connect_client s.addr
    first ← only_client s.hdl
    start_helper bench (Helper.reply_helper c.rx)
    server_reply ← expect (Server.request_timeout s.hdl first "test request" 100)
    assert (server_reply == "test reply")

  unfoldable pub check_send_event : Checked (World tokio) (Unit {0})
  unfolding ask start connect_client only_client Server.event
  check_send_event = do
    s ← start
    c ← connect_client s.addr
    first ← only_client s.hdl
    expect (Server.event s.hdl first "test event")
    client_message ← recv_within bench 100 c.rx
    client_event ← unwrap (as_event client_message)
    assert (client_event == "test event")
