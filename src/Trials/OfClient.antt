-- ===== src/Trials/OfClient.antt =====
-- src/client.rs, `mod tests`.
use Prim.Native.String.{◌++◌ as ◌^^◌}
use text.Mathlib.Text.{◌==◌}
use rrev.Prelude.{Option, none, some, String, List, [], ◌∷◌, Result, ControlFlow, go_on, stop}
use rrev.Channel.{MpscSender, MpscReceiver, TcpStream, SocketAddr, IoError}
use rrev.Scheme.{string_parser}
use rrev.Connection.Types.{ConnectionHdl, ConnectionEvent}
use rrev.Connection.ConnectionHdl as Handle
use rrev.Runtime.{Tokio, World, ask, new_channel}
use rrev.Trials.{
  Checked, ◌>>=◌, ◌>>◌, ret, lift, unwrap, expect, assert, Helper, Bench, ServerMessage,
  recv_within, start_helper, as_event, get_ok,
}

-- What one turn of `select!` takes: a stream that is accepted, or what the channel brings.
pub data Turn : Type 0 where
  accepted : Result (TcpStream × SocketAddr) IoError → Turn
  received : Option (Unit {0}) → Turn

abbrev as_address : ServerMessage → Option String
as_address (ServerMessage.address a) = some a
as_address (ServerMessage.new_connection _) = none

abbrev as_connection : ServerMessage → Option (ConnectionHdl string_parser)
as_connection (ServerMessage.new_connection c) = some c
as_connection (ServerMessage.address _) = none

module _ {tokio : Tokio string_parser} (bench : Bench tokio) where
  -- The body of the loop.
  unfoldable pub turn :
      MpscSender ServerMessage
      → MpscSender (ConnectionEvent string_parser)
      → Turn
      → Checked (World tokio) ControlFlow
  unfolding ask Handle.new
  turn server_tx event_tx (accepted stream) = do
    taken ← unwrap (get_ok stream)
    ws_stream ← expect (ask (tokio.upgrade taken.0))
    connection_hdl ← lift (Handle.new ws_stream event_tx)
    expect (ask (bench.push server_tx (ServerMessage.new_connection connection_hdl)))
    ret go_on
  turn server_tx event_tx (received _) = ret stop

  unfoldable pub turns :
      MpscSender ServerMessage
      → MpscSender (ConnectionEvent string_parser)
      → List Turn
      → Checked (World tokio) (Unit {0})
  unfolding turn
  turns server_tx event_tx [] = ret tt
  turns server_tx event_tx (t ∷ ts) = do
    control ← turn server_tx event_tx t
    elim control [ go_on ↦ turns server_tx event_tx ts | stop ↦ ret tt ]

  unfoldable pub server :
      MpscSender ServerMessage
      → MpscSender (ConnectionEvent string_parser)
      → List Turn
      → Checked (World tokio) (Unit {0})
  unfolding ask turns
  server server_tx event_tx ts = do
    listener ← expect (ask (tokio.bind "127.0.0.1:0"))
    addr ← expect (ask (tokio.local_addr listener))
    expect (ask (bench.push server_tx (ServerMessage.address (bench.addr_text addr))))
    turns server_tx event_tx ts

  -- Both sides share the channel of the events.
  unfoldable pub check_connect : Checked (World tokio) (Unit {0})
  unfolding ask new_channel Handle.connect Handle.event
  check_connect = do
    events ← lift new_channel
    from_server ← lift new_channel
    closing ← lift new_channel
    let event_tx : MpscSender (ConnectionEvent string_parser) = record { channel = events }
    let event_rx : MpscReceiver (ConnectionEvent string_parser) = record { channel = events }
    let server_rx : MpscReceiver ServerMessage = record { channel = from_server }
    start_helper bench (
        Helper.server_helper (record { channel = from_server }) event_tx
          (record { channel = closing }))
    first ← recv_within bench 100 server_rx
    addr ← unwrap (as_address first)
    url ← unwrap (bench.parse ("ws://" ^^ addr))
    client_hdl ← expect (Handle.connect url event_tx)
    second ← recv_within bench 100 server_rx
    server_hdl ← unwrap (as_connection second)
    expect (Handle.event client_hdl "test event")
    to_server ← recv_within bench 100 event_rx
    e ← unwrap (as_event to_server)
    assert (e == "test event")
    expect (Handle.event server_hdl "test event")
    to_client ← recv_within bench 100 event_rx
    e' ← unwrap (as_event to_client)
    assert (e' == "test event")
    let close_tx : MpscSender (Unit {0}) = record { channel = closing }
    expect (ask (bench.push close_tx tt))
