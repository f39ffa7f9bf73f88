-- ===== src/Trials/OfSender.antt =====
-- src/connection/sender.rs, `mod tests`.
use text.Mathlib.Text.{◌==◌}
use rrev.Prelude.{String, List, Result}
use rrev.Channel.{MpscSender, TcpListener, WsError}
use rrev.Scheme.{string_parser}
use rrev.Connection.Types.{SenderHdl}
use rrev.Connection.InternalHdl as Internal
use rrev.Connection.SenderHdl as Sender
use rrev.Runtime.{Tokio, World, new_channel}
use rrev.Trials.{
  Checked, ◌>>=◌, ◌>>◌, lift, unwrap, expect, assert, Helper, Bench, recv_within, start_helper,
  socket, client, accept_ws,
}
use rrev.Trials.OfConnection.{send_back, request_of}

module _ {tokio : Tokio string_parser} (bench : Bench tokio) where
  -- `client`, whose loop is that of `send_back`.
  unfoldable pub run_client :
      String
      → MpscSender String
      → List (Result bench.wire.Frame WsError)
      → Checked (World tokio) (Unit {0})
  unfolding client send_back
  run_client addr tx ms = do client bench addr; send_back bench tx ms

  unfoldable pub server : TcpListener → Checked (World tokio) (SenderHdl string_parser)
  unfolding new_channel accept_ws Sender.new
  server listener = do
    n ← lift new_channel
    ws_stream ← accept_ws bench listener
    lift (Sender.new (Internal.new (record { channel = n })) ws_stream)

  unfoldable pub check_sender : Checked (World tokio) (Unit {0})
  unfolding new_channel socket server Sender.send
  check_sender = do
    to_client ← lift new_channel
    bound ← socket bench
    start_helper bench (Helper.sender_client_helper bound.1 (record { channel = to_client }))
    sender_hdl ← server bound.0
    expect (Sender.send sender_hdl (request_of 0 "test"))
    client_message ← recv_within bench 100 (record { channel = to_client })
    text ← unwrap (bench.wire.to_string (request_of 0 "test"))
    assert (client_message == text)
