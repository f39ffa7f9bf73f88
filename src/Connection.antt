-- ===== src/Connection.antt =====
-- src/connection.rs: the task of one connection. It gives each request an id, keeps the oneshot to
-- answer it on under that id, and passes what the other side sends to the owner of the connection.
pub mod Types
pub mod SenderHdl
pub mod ReceiverHdl
pub mod InternalHdl
pub mod RequestHandle
pub mod Ledger
pub mod Refinement
pub mod Machine
pub mod Closing
pub mod Loop
pub mod Answers
pub mod Sender
pub mod Writing
pub mod Receiver
pub mod Reading
pub mod ConnectionHdl
pub mod Calls
pub mod Stops
pub mod WireIds
pub mod Requests
pub mod Waiting
pub mod Deadlock
pub mod Settling
pub mod OneClose
pub mod Halves
pub mod Stuck
pub mod Ending
pub mod Delivery
pub mod Sending
use rrev.Prelude.{
  ℕ, suc, ◌+◌, ◌%◌, ◌^◌, Bool, true, false, Option, none, some, List, [], ◌∷◌, ℕ_discrete, Result,
  ok, err, ControlFlow, go_on, stop, Async, pure, ◌>>=◌, ◌>>◌, if◌then◌else◌,
}
use rrev.Prelude.Map.{Map, contains_key, insert, remove, keys}
use rrev.Channel.{MpscSender, MpscReceiver, OneshotSender, WsStream}
use rrev.Scheme.{Parser, Request, Reply, Message, TheirMessage}
use rrev.Error.{RequestError, canceled}
use rrev.Runtime.{Tokio, World, to_owner, answer, send, new_channel, ask, is_ok}
use Types.{Answer, Connection, ConnectionMessage, ConnectionEvent, InternalMessage}

-- `usize` has 64 bits.
abbrev pub usize_mod : ℕ
usize_mod = 2 ^ 64

-- What one turn of `select!` takes from one of the two channels.
pub data Turn (P : Parser) : Type 0 where
  external : ConnectionMessage P → Turn P
  internal : InternalMessage P → Turn P

module _ {P : Parser} {tokio : Tokio P} where
  -- Starts the tasks of the two halves of the stream.
  unfoldable pub new :
      MpscReceiver (ConnectionMessage P)
      → WsStream
      → MpscSender (ConnectionEvent P)
      → Async (World tokio) (Connection P)
  unfolding new_channel SenderHdl.new ReceiverHdl.new
  new rx stream event_tx = do
    n ← new_channel
    let internal_hdl = InternalHdl.new (record { channel = n })
    sender_hdl ← SenderHdl.new internal_hdl stream
    receiver_hdl ← ReceiverHdl.new internal_hdl stream
    pure (record {
      receiver_hdl = receiver_hdl;
      sender_hdl = sender_hdl;
      internal_rx = record { channel = n };
      rx = rx;
      next_id = 0;
      reply_map = [];
      event_tx = event_tx;
    })

  unfoldable pub send_request :
      Connection P
      → P.OurRequest
      → OneshotSender (Answer P)
      → Async (World tokio) (Connection P × ControlFlow)
  unfolding SenderHdl.send contains_key insert ℕ_discrete
  send_request c payload tx =
      let id : ℕ = c.next_id in
      let c' : Connection P = record c { next_id = (c.next_id + 1) % usize_mod } in
      if contains_key ℕ_discrete id c.reply_map then pure (c', go_on) else do
        let c'' : Connection P = record c' { reply_map = insert ℕ_discrete id tx c'.reply_map }
        done ← SenderHdl.send c.sender_hdl (Message.request (record { id = id; payload = payload }))
        pure (c'', if is_ok done then go_on else stop)

  unfoldable pub handle_external :
      Connection P → ConnectionMessage P → Async (World tokio) (Connection P × ControlFlow)
  unfolding send_request SenderHdl.send
  handle_external c (ConnectionMessage.event e) = do
    done ← SenderHdl.send c.sender_hdl (Message.event e)
    pure (c, if is_ok done then go_on else stop)
  handle_external c (ConnectionMessage.request payload tx) = send_request c payload tx
  handle_external c ConnectionMessage.close = pure (c, stop)

  unfoldable pub handle_internal_request :
      Connection P → Request P.TheirRequest → Async (World tokio) ControlFlow
  unfolding send
  handle_internal_request c request = do
    done ← send (
        to_owner c.event_tx
          (ConnectionEvent.request_message (RequestHandle.new request c.sender_hdl)))
    pure (if done then go_on else stop)

  -- A reply to an id that nobody waits for is dropped.
  unfoldable pub handle_internal_reply :
      Connection P → Reply P.TheirReply → Async (World tokio) (Connection P)
  unfolding send remove
  handle_internal_reply c reply =
      let (found, rest) = remove ℕ_discrete reply.id c.reply_map in
      let c' : Connection P = record c { reply_map = rest } in
      elim found [ some tx ↦ do send (answer tx (ok reply.payload)); pure c' | none ↦ pure c' ]

  unfoldable pub handle_internal_event :
      Connection P → P.TheirEvent → Async (World tokio) ControlFlow
  unfolding send
  handle_internal_event c e = do
    done ← send (to_owner c.event_tx (ConnectionEvent.event_message e))
    pure (if done then go_on else stop)

  unfoldable pub handle_internal_new_message :
      Connection P → TheirMessage P → Async (World tokio) (Connection P × ControlFlow)
  unfolding handle_internal_request handle_internal_reply handle_internal_event
  handle_internal_new_message c (Message.request r) = do
    flow ← handle_internal_request c r
    pure (c, flow)
  handle_internal_new_message c (Message.reply r) = do
    c' ← handle_internal_reply c r
    pure (c', go_on)
  handle_internal_new_message c (Message.event e) = do
    flow ← handle_internal_event c e
    pure (c, flow)

  unfoldable pub handle_internal :
      Connection P → InternalMessage P → Async (World tokio) (Connection P × ControlFlow)
  unfolding handle_internal_new_message
  handle_internal c InternalMessage.close = pure (c, stop)
  handle_internal c (InternalMessage.new_message m) = handle_internal_new_message c m

  unfoldable pub handle_turn :
      Connection P → Turn P → Async (World tokio) (Connection P × ControlFlow)
  unfolding handle_external handle_internal
  handle_turn c (external m) = handle_external c m
  handle_turn c (internal m) = handle_internal c m

  -- The loop of `cancel_requests` over the keys that it collected.
  unfoldable pub cancel_keys : List ℕ → Connection P → Async (World tokio) (Connection P)
  unfolding send remove
  cancel_keys [] c = pure c
  cancel_keys (key ∷ rest) c =
      let (found, left) = remove ℕ_discrete key c.reply_map in
      let c' : Connection P = record c { reply_map = left } in
      elim found [
        | some tx ↦ do send (answer tx (err RequestError.canceled)); cancel_keys rest c'
        | none ↦ cancel_keys rest c'
      ]

  unfoldable pub cancel_requests : Connection P → Async (World tokio) (Connection P)
  unfolding cancel_keys ask
  cancel_requests c = do entries ← ask (tokio.traverse c.reply_map); cancel_keys (keys entries) c

  -- Both results are ignored.
  unfoldable pub close : Connection P → Async (World tokio) (Unit {0})
  unfolding ReceiverHdl.close SenderHdl.close
  close c = do ReceiverHdl.close c.receiver_hdl; SenderHdl.close c.sender_hdl; pure tt

-- How far the loop of `run` has come with the messages in the order in which `select!` takes them:
-- the state, whether the loop was left, and the messages that it has not taken.
pub record Progress (P : Parser) : Type 0 where
  pub state : Connection P
  pub flow : ControlFlow
  pub unread : List (Turn P)

module _ {P : Parser} {tokio : Tokio P} where
  unfoldable pub run_loop : Connection P → List (Turn P) → Async (World tokio) (Progress P)
  run_loop c [] = pure (record { state = c; flow = go_on; unread = [] })
  run_loop c (t ∷ ts) = do
    (c', flow) ← handle_turn c t
    elim flow [
      | go_on ↦ run_loop c' ts
      | stop ↦ pure (record { state = c'; flow = stop; unread = ts })
    ]

  -- What follows the loop. A failed send of the last event is only logged.
  unfoldable pub finish : Connection P → Async (World tokio) (Connection P)
  unfolding close send
  finish c = do
    close c
    c' ← cancel_requests c
    send (to_owner c'.event_tx ConnectionEvent.close)
    pure c'

  -- The whole task, up to its end or to where it waits for a message.
  unfoldable pub run : Connection P → List (Turn P) → Async (World tokio) (Progress P)
  run c ts = do
    p ← run_loop c ts
    elim p.flow [ go_on ↦ pure p | stop ↦ do c' ← finish p.state; pure (record p { state = c' }) ]
