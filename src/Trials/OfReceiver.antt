-- ===== src/Trials/OfReceiver.antt =====
-- src/connection/receiver.rs, `mod tests`.
use rrev.Prelude.{Option, none, some, String, List, [], ◌∷◌}
use rrev.Channel.{MpscSender, MpscReceiver, WsStream, TcpListener}
use rrev.Scheme.{string_parser, Message, TheirMessage}
use rrev.Connection.Types.{ReceiverHdl, InternalMessage}
use rrev.Connection.InternalHdl as Internal
use rrev.Connection.ReceiverHdl as Receiver
use rrev.Runtime.{Tokio, World, ask, new_channel}
use rrev.Trials.{
  Checked, ◌>>=◌, ◌>>◌, ret, lift, unwrap, expect, assert, Helper, Bench, recv_within, start_helper,
  socket, client, accept_ws, is_message,
}
use rrev.Trials.OfConnection.{send_text, request_of, reply_of}

module _ {tokio : Tokio string_parser} where
  -- The loop of `client` over what its channel brings: it ends at a `none`.
  unfoldable pub send_all : WsStream → List (Option String) → Checked (World tokio) (Unit {0})
  unfolding send_text
  send_all write [] = ret tt
  send_all write (none ∷ ms) = ret tt
  send_all write (some message ∷ ms) = do send_text write message; send_all write ms

module _ {tokio : Tokio string_parser} (bench : Bench tokio) where
  unfoldable pub run_client : String → List (Option String) → Checked (World tokio) (Unit {0})
  unfolding client send_all
  run_client addr ms = do write ← client bench addr; send_all write ms

  unfoldable pub server :
      TcpListener
      → Checked (World tokio) (ReceiverHdl × MpscReceiver (InternalMessage string_parser))
  unfolding new_channel accept_ws Receiver.new
  server listener = do
    n ← lift new_channel
    let internal_hdl = Internal.new {P = string_parser} (record { channel = n })
    ws_stream ← accept_ws bench listener
    receiver_hdl ← lift (Receiver.new internal_hdl ws_stream)
    ret (receiver_hdl, record { channel = n })

  unfoldable pub try_message :
      TheirMessage string_parser
      → MpscSender (Option String)
      → MpscReceiver (InternalMessage string_parser)
      → Checked (World tokio) (Unit {0})
  unfolding ask
  try_message message client_tx connection_rx = do
    text ← unwrap (bench.wire.to_string message)
    expect (ask (bench.push client_tx (some text)))
    receiver_message ← recv_within bench 100 connection_rx
    assert (is_message receiver_message message)

  unfoldable pub check_receiver : Checked (World tokio) (Unit {0})
  unfolding new_channel socket server try_message
  check_receiver = do
    to_client ← lift new_channel
    bound ← socket bench
    start_helper bench (Helper.receiver_client_helper bound.1 (record { channel = to_client }))
    started ← server bound.0
    try_message (request_of 0 "test") (record { channel = to_client }) started.1
    try_message (reply_of 1 "test") (record { channel = to_client }) started.1
    try_message (Message.event "test") (record { channel = to_client }) started.1
