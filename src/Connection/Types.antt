-- ===== src/Connection/Types.antt =====
-- src/connection.rs and src/connection: the actors' states, their messages and their handles.
use rrev.Prelude.{ℕ, ℕ_discrete, Result}
use rrev.Prelude.Map.{Map}
use rrev.Channel.{MpscSender, MpscReceiver, OneshotSender, WsStream}
use rrev.Scheme.{Parser, Request, OurMessage, TheirMessage}
use rrev.Error.{RequestError}

-- What a oneshot for a request carries back: `Result<P::TheirReply, RequestError>`.
abbrev pub Answer : Parser → Type 0
Answer P = Result P.TheirReply RequestError

pub data ReceiverMessage : Type 0 where
  close : ReceiverMessage

pub data SenderMessage (P : Parser) : Type 0 where
  message : OurMessage P → SenderMessage P
  close : SenderMessage P

pub data InternalMessage (P : Parser) : Type 0 where
  close : InternalMessage P
  new_message : TheirMessage P → InternalMessage P

pub data ConnectionMessage (P : Parser) : Type 0 where
  close : ConnectionMessage P
  request : P.OurRequest → OneshotSender (Answer P) → ConnectionMessage P
  event : P.OurEvent → ConnectionMessage P

pub record ReceiverHdl : Type 0 where
  pub tx : MpscSender ReceiverMessage

pub record SenderHdl (P : Parser) : Type 0 where
  pub tx : MpscSender (SenderMessage P)

pub record InternalHdl (P : Parser) : Type 0 where
  pub tx : MpscSender (InternalMessage P)

pub record ConnectionHdl (P : Parser) : Type 0 where
  pub tx : MpscSender (ConnectionMessage P)

unfoldable pub ConnectionHdl-discrete : {P : Parser} → Discrete (ConnectionHdl P)
ConnectionHdl-discrete = hlevel ℕ_discrete

-- src/scheme/request_handle.rs
pub record RequestHandle (P : Parser) : Type 0 where
  pub request : Request P.TheirRequest
  pub sender_hdl : SenderHdl P

pub data ConnectionEvent (P : Parser) : Type 0 where
  close : ConnectionEvent P
  event_message : P.TheirEvent → ConnectionEvent P
  request_message : RequestHandle P → ConnectionEvent P

-- The state of a connection's task.
pub record Connection (P : Parser) : Type 0 where
  pub receiver_hdl : ReceiverHdl
  pub sender_hdl : SenderHdl P
  pub internal_rx : MpscReceiver (InternalMessage P)
  pub rx : MpscReceiver (ConnectionMessage P)
  pub next_id : ℕ  -- usize
  pub reply_map : Map ℕ (OneshotSender (Answer P))
  pub event_tx : MpscSender (ConnectionEvent P)

-- The task of the websocket's stream half, src/connection/receiver.rs.
pub record Receiver (P : Parser) : Type 0 where
  pub connection_handle : InternalHdl P
  pub rx : MpscReceiver ReceiverMessage
  pub ws_receiver : WsStream

-- The task of the websocket's sink half, src/connection/sender.rs.
pub record Sender (P : Parser) : Type 0 where
  pub connection_hdl : InternalHdl P
  pub rx : MpscReceiver (SenderMessage P)
  pub ws_sender : WsStream
