-- ===== src/Trials/OfListener.antt =====
-- src/server/listener.rs, `mod tests`.
use Prim.Native.String.{◌++◌ as ◌^^◌}
use text.Mathlib.Text.{◌==◌}
use rrev.Prelude.{ℕ, Option, none, some, Result, ok, err}
use rrev.Channel.{MpscReceiver, TcpStream}
use rrev.Scheme.{string_parser}
use rrev.Server.Types.{AcceptorMessage, ListenersAcceptorHandle}
use rrev.Server.Acceptor as Acceptor
use rrev.Server.Listener as Listener
use rrev.Runtime.{Tokio, World, ask, new_channel}
use rrev.Trials.{Checked, ◌>>=◌, ◌>>◌, lift, unwrap, expect, assert, Bench, recv_within}

abbrev get_err : {A E : Type 0} → Result A E → Option E
get_err (ok _) = none
get_err (err e) = some e

abbrev as_new_stream : AcceptorMessage → Option TcpStream
as_new_stream (AcceptorMessage.new_stream stream _) = some stream
as_new_stream AcceptorMessage.close = none

-- The acceptor's handle on a channel that the test reads.
abbrev handle_on : ℕ → ListenersAcceptorHandle
handle_on n = Acceptor.listeners_handle (Acceptor.from_tx (record { channel = n }))

module _ {tokio : Tokio string_parser} (bench : Bench tokio) where
  unfoldable pub check_get_addr : Checked (World tokio) (Unit {0})
  unfolding new_channel Listener.new_handle Listener.get_addr
  check_get_addr = do
    n ← lift new_channel
    listener_handle ← expect (Listener.new_handle (handle_on n) "127.0.0.1:0")
    addr ← expect (Listener.get_addr listener_handle)
    assert (bench.ip_text addr.ip == "127.0.0.1")

  unfoldable pub check_bad_addr : Checked (World tokio) (Unit {0})
  unfolding new_channel Listener.new_handle
  check_bad_addr = do
    n ← lift new_channel
    result ← lift (Listener.new_handle (handle_on n) "1.1.1.1:0")
    error ← unwrap (get_err result)
    assert (bench.addr_not_available error)

  -- The message has 12 bytes.
  unfoldable pub check_connect : Checked (World tokio) (Unit {0})
  unfolding ask new_channel Listener.new_handle Listener.get_addr
  check_connect = do
    n ← lift new_channel
    let rx : MpscReceiver AcceptorMessage = record { channel = n }
    listener_handle ← expect (Listener.new_handle (handle_on n) "127.0.0.1:0")
    addr ← expect (Listener.get_addr listener_handle)
    client_stream ← expect (ask (bench.connect_tcp ("127.0.0.1:" ^^ bench.port_text addr.port)))
    message ← recv_within bench 100 rx
    server_stream ← unwrap (as_new_stream message)
    expect (ask (bench.write_all client_stream (bench.bytes "test message")))
    buf ← expect (ask (bench.read_exact server_stream 12))
    string_buf ← unwrap (bench.from_utf8 buf)
    assert (string_buf == "test message")
