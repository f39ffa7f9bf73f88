-- ===== src/Connection/Waiting.antt =====
-- src/connection.rs, src/connection/sender.rs and src/connection/receiver.rs: the three tasks of one
-- connection side by side. Their channels hold one message, and a send waits while one is there.
use rrev.Prelude.{◌≡◌, Option, none, some, if◌then◌else◌, ℕ_discrete, ◌+◌, ◌%◌}
use rrev.Prelude.Map.{contains_key, insert, remove}
use rrev.Scheme.{Parser, Message, OurMessage}
use rrev.Connection.Types.{
  Connection, ConnectionEvent, ConnectionMessage, InternalMessage, SenderMessage, ReceiverMessage,
}
use rrev.Connection.{Turn, external, internal, usize_mod}
use rrev.Connection.RequestHandle as RequestHandle

-- Where the connection's task waits: at `select!`, at a send of one of its handlers, or at one of
-- the sends that follow its loop.
pub data ConnectionAt (P : Parser) : Type 0 where
  selecting : Connection P → ConnectionAt P
  sending : Connection P → OurMessage P → ConnectionAt P
  telling : Connection P → ConnectionEvent P → ConnectionAt P
  closing_receiver closing_sender telling_end : Connection P → ConnectionAt P
  ended : ConnectionAt P

-- Where the sender's task waits: at `recv`, at the write or the close of the websocket, or at the
-- report of a lost websocket.
pub data SenderAt : Type 0 where
  receiving writing closing reporting ended : SenderAt

-- Where the receiver's task waits: at `select!`, or at a report to the connection.
pub data ReceiverAt (P : Parser) : Type 0 where
  reading : ReceiverAt P
  reporting : InternalMessage P → ReceiverAt P
  ended : ReceiverAt P

-- The tasks and the channels. `user`, `owner`: the channels from and to the owner of the connection.
pub record Tasks (P : Parser) : Type 0 where
  pub connection : ConnectionAt P
  pub sender : SenderAt
  pub receiver : ReceiverAt P
  pub user : Option (ConnectionMessage P)
  pub owner : Option (ConnectionEvent P)
  pub inside : Option (InternalMessage P)
  pub for_sender : Option (SenderMessage P)
  pub for_receiver : Option ReceiverMessage

module _ {P : Parser} where
  -- Where the handler of a message first waits, or `select!` if it does not.
  unfoldable pub pause : Connection P → Turn P → ConnectionAt P
  unfolding contains_key insert remove
  pause c (external ConnectionMessage.close) = closing_receiver c
  pause c (external (ConnectionMessage.event e)) = sending c (Message.event e)
  pause c (external (ConnectionMessage.request q tx)) =
      let c' : Connection P = record c { next_id = (c.next_id + 1) % usize_mod } in
      if contains_key ℕ_discrete c.next_id c.reply_map
      then selecting c'
      else sending (record c' { reply_map = insert ℕ_discrete c.next_id tx c.reply_map })
          (Message.request (record { id = c.next_id; payload = q }))
  pause c (internal InternalMessage.close) = closing_receiver c
  pause c (internal (InternalMessage.new_message (Message.request r))) =
      telling c (ConnectionEvent.request_message (RequestHandle.new r c.sender_hdl))
  pause c (internal (InternalMessage.new_message (Message.reply r))) =
      selecting (record c { reply_map = (remove ℕ_discrete r.id c.reply_map).1 })
  pause c (internal (InternalMessage.new_message (Message.event e))) =
      telling c (ConnectionEvent.event_message e)

  -- Where the receiver's task waits after a report.
  abbrev pub reported : InternalMessage P → ReceiverAt P
  reported InternalMessage.close = ended
  reported (InternalMessage.new_message _) = reading

  -- One step of one of the three tasks, with what is in their channels. A send to a task that has
  -- ended fails at once.
  pub data Work : Tasks P → Tasks P → Type 0 where
    takes_external :
        (n : Tasks P) (c : Connection P) (m : ConnectionMessage P)
        → n.connection ≡ selecting c
        → n.user ≡ some m
        → Work n (record n { connection = pause c (external m); user = none })
    takes_internal :
        (n : Tasks P) (c : Connection P) (m : InternalMessage P)
        → n.connection ≡ selecting c
        → n.inside ≡ some m
        → Work n (record n { connection = pause c (internal m); inside = none })
    sends :
        (n : Tasks P) (c : Connection P) (m : OurMessage P)
        → n.connection ≡ sending c m
        → n.for_sender ≡ none
        → Work n
            (record n { connection = selecting c; for_sender = some (SenderMessage.message m) })
    send_fails :
        (n : Tasks P) (c : Connection P) (m : OurMessage P)
        → n.connection ≡ sending c m
        → n.sender ≡ ended
        → Work n (record n { connection = closing_receiver c })
    tells :
        (n : Tasks P) (c : Connection P) (e : ConnectionEvent P)
        → n.connection ≡ telling c e
        → n.owner ≡ none
        → Work n (record n { connection = selecting c; owner = some e })
    closes_receiver :
        (n : Tasks P) (c : Connection P)
        → n.connection ≡ closing_receiver c
        → n.for_receiver ≡ none
        → Work n
            (record n { connection = closing_sender c; for_receiver = some ReceiverMessage.close })
    receiver_gone :
        (n : Tasks P) (c : Connection P)
        → n.connection ≡ closing_receiver c
        → n.receiver ≡ ended
        → Work n (record n { connection = closing_sender c })
    closes_sender :
        (n : Tasks P) (c : Connection P)
        → n.connection ≡ closing_sender c
        → n.for_sender ≡ none
        → Work n (record n { connection = telling_end c; for_sender = some SenderMessage.close })
    sender_gone :
        (n : Tasks P) (c : Connection P)
        → n.connection ≡ closing_sender c
        → n.sender ≡ ended
        → Work n (record n { connection = telling_end c })
    tells_end :
        (n : Tasks P) (c : Connection P)
        → n.connection ≡ telling_end c
        → n.owner ≡ none
        → Work n (record n { connection = ended; owner = some ConnectionEvent.close })
    sender_writes :
        (n : Tasks P) (m : OurMessage P)
        → n.sender ≡ receiving
        → n.for_sender ≡ some (SenderMessage.message m)
        → Work n (record n { sender = writing; for_sender = none })
    -- A message that cannot be serialized is dropped.
    sender_skips :
        (n : Tasks P) (m : OurMessage P)
        → n.sender ≡ receiving
        → n.for_sender ≡ some (SenderMessage.message m)
        → Work n (record n { for_sender = none })
    sender_reports :
        (n : Tasks P)
        → n.sender ≡ reporting
        → n.inside ≡ none
        → Work n (record n { sender = receiving; inside = some InternalMessage.close })
    report_fails :
        (n : Tasks P)
        → n.sender ≡ reporting
        → n.connection ≡ ended
        → Work n (record n { sender = receiving })
    sender_closes :
        (n : Tasks P)
        → n.sender ≡ receiving
        → n.for_sender ≡ some SenderMessage.close
        → Work n (record n { sender = closing; for_sender = none })
    receiver_reports :
        (n : Tasks P) (m : InternalMessage P)
        → n.receiver ≡ reporting m
        → n.inside ≡ none
        → Work n (record n { receiver = reported m; inside = some m })
    receiver_report_fails :
        (n : Tasks P) (m : InternalMessage P)
        → n.receiver ≡ reporting m
        → n.connection ≡ ended
        → Work n (record n { receiver = reported m })
    receiver_closes :
        (n : Tasks P)
        → n.receiver ≡ reading
        → n.for_receiver ≡ some ReceiverMessage.close
        → Work n (record n { receiver = ended; for_receiver = none })

  -- The websocket lets a write or a close of the sender end, which may need the peer. An error is
  -- reported, or it is one that is only logged.
  pub data Answer : Tasks P → Tasks P → Type 0 where
    write_ends : (n : Tasks P) → n.sender ≡ writing → Answer n (record n { sender = receiving })
    write_fails : (n : Tasks P) → n.sender ≡ writing → Answer n (record n { sender = reporting })
    close_ends : (n : Tasks P) → n.sender ≡ closing → Answer n (record n { sender = ended })

  -- A step of a task, or of what is around them: a write or a close ends, the owner sends, replies, takes an event or
  -- is gone, and a frame comes from the websocket.
  pub data Step : Tasks P → Tasks P → Type 0 where
    works : {n o : Tasks P} → Work n o → Step n o
    answers : {n o : Tasks P} → Answer n o → Step n o
    user_sends :
        (n : Tasks P) (m : ConnectionMessage P)
        → n.user ≡ none
        → Step n (record n { user = some m })
    owner_takes :
        (n : Tasks P) (e : ConnectionEvent P)
        → n.owner ≡ some e
        → Step n (record n { owner = none })
    tell_fails :
        (n : Tasks P) (c : Connection P) (e : ConnectionEvent P)
        → n.connection ≡ telling c e
        → Step n (record n { connection = closing_receiver c })
    tell_end_fails :
        (n : Tasks P) (c : Connection P)
        → n.connection ≡ telling_end c
        → Step n (record n { connection = ended })
    -- The owner completes a request that it has a handle of.
    owner_replies :
        (n : Tasks P) (m : OurMessage P)
        → n.for_sender ≡ none
        → Step n (record n { for_sender = some (SenderMessage.message m) })
    receiver_reads :
        (n : Tasks P) (m : InternalMessage P)
        → n.receiver ≡ reading
        → Step n (record n { receiver = reporting m })

  pub data Steps : Tasks P → Tasks P → Type 0 where
    rest : (n : Tasks P) → Steps n n
    more : (m n o : Tasks P) → Step m n → Steps n o → Steps m o
