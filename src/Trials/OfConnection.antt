-- ===== src/Trials/OfConnection.antt =====
-- src/connection.rs, `mod tests`.
use text.Mathlib.Text.{◌==◌}
use rrev.Prelude.{ℕ, Bool, true, false, Option, none, some, String, List, [], ◌∷◌, Result, ok, err}
use rrev.Prelude.Map.{Map, contains_key, get, insert}
use rrev.Channel.{MpscSender, MpscReceiver, WsStream, TcpListener, WsError}
use rrev.Error.{TimeoutError, RequestError}
use rrev.Scheme.{string_parser, Message, OurMessage}
use rrev.Connection.Types.{ConnectionHdl, ConnectionEvent}
use rrev.Connection.ConnectionHdl as Handle
use rrev.Connection.RequestHandle as RequestHandle
use rrev.Runtime.{Tokio, World, ask, ws_send, new_channel}
use rrev.Trials.{
  Checked, ◌>>=◌, ◌>>◌, ret, panic, lift, unwrap, expect, expect_some, assert, Helper, Bench,
  String-discrete, recv_within, start_helper, socket, client, accept_ws, as_request, as_event,
}

abbrev pub request_of : ℕ → String → OurMessage string_parser
request_of n text = Message.request (record { id = n; payload = text })

abbrev pub reply_of : ℕ → String → OurMessage string_parser
reply_of n text = Message.reply (record { id = n; payload = text })

abbrev is_timeout : Result String TimeoutError → Bool
is_timeout (err TimeoutError.timeout) = true
is_timeout _ = false

abbrev is_canceled : Result String TimeoutError → Bool
is_canceled (err (TimeoutError.request_error RequestError.canceled)) = true
is_canceled _ = false

module _ {tokio : Tokio string_parser} where
  -- `write.send(Message::Text(…))`, with `expect`.
  unfoldable pub send_text : WsStream → String → Checked (World tokio) (Unit {0})
  unfolding ws_send
  send_text write text = do e ← lift (ws_send write text); elim e [ none ↦ ret tt | some _ ↦ panic ]

  -- The loops take what `rx` or `read` brings until it ends.
  unfoldable pub send_to : WsStream → List String → Checked (World tokio) (Unit {0})
  unfolding send_text
  send_to write [] = ret tt
  send_to write (m ∷ ms) = do send_text write m; send_to write ms

module _ {tokio : Tokio string_parser} (bench : Bench tokio) where
  unfoldable pub close_client : String → Checked (World tokio) (Unit {0})
  unfolding client ask
  close_client addr = do
    ws_stream ← client bench addr
    message ← lift (ask (bench.next ws_stream))
    elim message [ none ↦ ret tt | some _ ↦ expect (ask (bench.close ws_stream)) ]

  unfoldable pub send_back :
      MpscSender String → List (Result bench.wire.Frame WsError) → Checked (World tokio) (Unit {0})
  unfolding ask
  send_back tx [] = ret tt
  send_back tx (ok m ∷ ms) = do expect (ask (bench.push tx (bench.shown m))); send_back tx ms
  send_back tx (err _ ∷ ms) = ret tt

  unfoldable pub send_client :
      String
      → Option (MpscSender String)
      → Option (MpscReceiver String)
      → Checked (World tokio) (Unit {0})
  unfolding client ask
  send_client addr tx rx = do
    ws_stream ← client bench addr
    elim tx [ none ↦ ret tt | some t ↦ start_helper bench (Helper.send_back_helper t ws_stream) ]
    elim rx [ none ↦ ret tt | some r ↦ start_helper bench (Helper.send_to_helper r ws_stream) ]

  -- The body of the loop for a message that could be read.
  unfoldable pub respond :
      WsStream → Map String String → bench.wire.Frame → Checked (World tokio) (Unit {0})
  unfolding send_text
  respond write responses m = do
    assert (bench.is_text m)
    m_str ← unwrap (bench.wire.to_text m)
    assert (contains_key String-discrete m_str responses)
    response ← unwrap (get String-discrete m_str responses)
    send_text write response

  unfoldable pub respond_all :
      WsStream
      → Map String String
      → List (Result bench.wire.Frame WsError)
      → Checked (World tokio) (Unit {0})
  unfolding respond
  respond_all write responses [] = ret tt
  respond_all write responses (ok m ∷ ms) = do
    respond write responses m
    respond_all write responses ms
  respond_all write responses (err _ ∷ ms) = respond_all write responses ms

  unfoldable pub responsive_client :
      String
      → Map String String
      → List (Result bench.wire.Frame WsError)
      → Checked (World tokio) (Unit {0})
  unfolding client respond_all
  responsive_client addr responses ms = do
    ws_stream ← client bench addr
    respond_all ws_stream responses ms

  unfoldable pub server :
      TcpListener
      → MpscSender (ConnectionEvent string_parser)
      → Checked (World tokio) (ConnectionHdl string_parser)
  unfolding accept_ws Handle.new
  server listener tx = do ws_stream ← accept_ws bench listener; lift (Handle.new ws_stream tx)

  unfoldable pub check_timeout : Checked (World tokio) (Unit {0})
  unfolding new_channel socket server ask Handle.request_timeout
  check_timeout = do
    to_client ← lift new_channel
    to_server ← lift new_channel
    bound ← socket bench
    start_helper bench
        (Helper.send_client_helper bound.1 (some (record { channel = to_client })) none)
    connection_hdl ← server bound.0 (record { channel = to_server })
    timeout ← lift (Handle.request_timeout connection_hdl "test" 10)
    assert (is_timeout timeout)
    message ← expect_some (ask (bench.recv (record { channel = to_client })))
    request ← unwrap (bench.wire.to_string (request_of 0 "test"))
    assert (message == request)

  unfoldable pub check_request : Checked (World tokio) (Unit {0})
  unfolding new_channel socket server ask Handle.request_timeout
  check_request = do
    request ← unwrap (bench.wire.to_string (request_of 0 "test"))
    reply ← unwrap (bench.wire.to_string (reply_of 0 "test"))
    let requests : Map String String = insert String-discrete request reply []
    bound ← socket bench
    start_helper bench (Helper.responsive_client_helper bound.1 requests)
    to_server ← lift new_channel
    connection_hdl ← server bound.0 (record { channel = to_server })
    result ← expect (Handle.request_timeout connection_hdl "test" 100)
    assert ("test" == result)

  unfoldable pub check_send_event : Checked (World tokio) (Unit {0})
  unfolding new_channel socket server ask Handle.event
  check_send_event = do
    to_client ← lift new_channel
    bound ← socket bench
    start_helper bench
        (Helper.send_client_helper bound.1 (some (record { channel = to_client })) none)
    to_server ← lift new_channel
    connection_hdl ← server bound.0 (record { channel = to_server })
    expect (Handle.event connection_hdl "test")
    client_message ← recv_within bench 100 (record { channel = to_client })
    event ← unwrap (bench.wire.to_string (Message.event "test"))
    assert (client_message == event)

  unfoldable pub check_recv_event : Checked (World tokio) (Unit {0})
  unfolding new_channel socket server ask
  check_recv_event = do
    event_str ← unwrap (bench.wire.to_string (Message.event "test"))
    to_client ← lift new_channel
    to_server ← lift new_channel
    bound ← socket bench
    start_helper bench
        (Helper.send_client_helper bound.1 none (some (record { channel = to_client })))
    server bound.0 (record { channel = to_server })
    expect (ask (bench.push (record { channel = to_client }) event_str))
    let server_rx : MpscReceiver (ConnectionEvent string_parser) = record { channel = to_server }
    server_message ← recv_within bench 100 server_rx
    m ← unwrap (as_event server_message)
    assert (m == "test")

  unfoldable pub check_recv_request : Checked (World tokio) (Unit {0})
  unfolding new_channel socket server ask RequestHandle.complete
  check_recv_request = do
    request_str ← unwrap (bench.wire.to_string (request_of 0 "test"))
    reply_str ← unwrap (bench.wire.to_string (reply_of 0 "test"))
    to_client ← lift new_channel
    from_client ← lift new_channel
    to_server ← lift new_channel
    bound ← socket bench
    start_helper bench (
        Helper.send_client_helper bound.1 (some (record { channel = from_client }))
          (some (record { channel = to_client })))
    server bound.0 (record { channel = to_server })
    expect (ask (bench.push (record { channel = to_client }) request_str))
    let server_rx : MpscReceiver (ConnectionEvent string_parser) = record { channel = to_server }
    server_message ← recv_within bench 100 server_rx
    r ← unwrap (as_request server_message)
    expect (RequestHandle.complete r "test")
    client_message ← recv_within bench 100 (record { channel = from_client })
    assert (reply_str == client_message)

  unfoldable pub check_close_request : Checked (World tokio) (Unit {0})
  unfolding new_channel socket server ask Handle.request_timeout
  check_close_request = do
    bound ← socket bench
    start_helper bench (Helper.close_client_helper bound.1)
    to_server ← lift new_channel
    connection_hdl ← server bound.0 (record { channel = to_server })
    close ← lift (Handle.request_timeout connection_hdl "test" 100)
    assert (is_canceled close)
