-- ===== src/Connection/Settling.antt =====
-- src/connection.rs, src/connection/sender.rs and src/connection/receiver.rs: how long the three
-- tasks of a connection go on by themselves.
use rrev.Prelude.{ℕ, zero, suc, ◌+◌, ◌≤◌, ◌<◌, ◌≡◌, refl, Option, none, some, arith}
use rrev.Scheme.{Parser, Message}
use rrev.Connection.Types.{Connection, ConnectionEvent, ConnectionMessage, InternalMessage}
use rrev.Connection.{external, internal}
use rrev.Connection.Waiting.{
  Tasks, ConnectionAt, SenderAt, ReceiverAt, pause, reported, Work, takes_external, takes_internal,
  sends, send_fails, tells, closes_receiver, receiver_gone, closes_sender, sender_gone, tells_end,
  sender_writes, sender_skips, Answer, write_ends, write_fails, close_ends, sender_reports,
  report_fails, sender_closes, receiver_reports, receiver_report_fails, receiver_closes,
}

abbrev pub held_weight : {A : Type 0} → ℕ → Option A → ℕ
held_weight k none = 0
held_weight k (some _) = k

abbrev sender_weight : SenderAt → ℕ
sender_weight SenderAt.writing = 4
sender_weight SenderAt.reporting = 3
sender_weight SenderAt.closing = 1
sender_weight _ = 0

sender_weight-le : (a : SenderAt) → sender_weight a ≤ 4
sender_weight-le a = ground arith

pub held_weight-le : {A : Type 0} (k : ℕ) (x : Option A) → held_weight k x ≤ k
held_weight-le k none = omega arith
held_weight-le k (some _) = omega arith

module _ {P : Parser} where
  abbrev connection_weight : ConnectionAt P → ℕ
  connection_weight (ConnectionAt.selecting _) = 20
  connection_weight (ConnectionAt.sending _ _) = 26
  connection_weight (ConnectionAt.telling _ _) = 21
  connection_weight (ConnectionAt.closing_receiver _) = 9
  connection_weight (ConnectionAt.closing_sender _) = 7
  connection_weight (ConnectionAt.telling_end _) = 1
  connection_weight ConnectionAt.ended = 0

  abbrev receiver_weight : ReceiverAt P → ℕ
  receiver_weight (ReceiverAt.reporting _) = 3
  receiver_weight _ = 0

  -- What is left to do: each message and each wait counts for the work that can come of it.
  abbrev pub weight : Tasks P → ℕ
  weight n =
      connection_weight n.connection
      + sender_weight n.sender
      + receiver_weight n.receiver
      + held_weight 7 n.user
      + held_weight 2 n.inside
      + held_weight 5 n.for_sender
      + held_weight 1 n.for_receiver

  external_weight :
      (c : Connection P) (m : ConnectionMessage P) → connection_weight (pause c (external m)) ≤ 26
  unfolding pause
  external_weight c ConnectionMessage.close = omega arith
  external_weight c (ConnectionMessage.event e) = omega arith
  external_weight c (ConnectionMessage.request q tx) = ground arith

  internal_weight :
      (c : Connection P) (m : InternalMessage P) → connection_weight (pause c (internal m)) ≤ 21
  unfolding pause
  internal_weight c InternalMessage.close = omega arith
  internal_weight c (InternalMessage.new_message (Message.request r)) = omega arith
  internal_weight c (InternalMessage.new_message (Message.reply r)) = omega arith
  internal_weight c (InternalMessage.new_message (Message.event e)) = omega arith

  reported_weight : (m : InternalMessage P) → receiver_weight (reported m) ≡ 0
  reported_weight InternalMessage.close = refl
  reported_weight (InternalMessage.new_message _) = refl

  connection_weight-le : (a : ConnectionAt P) → connection_weight a ≤ 26
  connection_weight-le a = ground arith

  receiver_weight-le : (a : ReceiverAt P) → receiver_weight a ≤ 3
  receiver_weight-le a = ground arith

  pub weight-lt : {n o : Tasks P} → Work n o → weight o < weight n
  weight-lt (takes_external n c m h g) = ground (arith, external_weight c m)
  weight-lt (takes_internal n c m h g) = ground (arith, internal_weight c m)
  weight-lt (receiver_reports n m h g) = ground (arith, reported_weight m)
  weight-lt (receiver_report_fails n m h g) = ground (arith, reported_weight m)
  weight-lt (sends n c m h g) = ground arith
  weight-lt (send_fails n c m h g) = ground arith
  weight-lt (tells n c e h g) = ground arith
  weight-lt (closes_receiver n c h g) = ground arith
  weight-lt (receiver_gone n c h g) = ground arith
  weight-lt (closes_sender n c h g) = ground arith
  weight-lt (sender_gone n c h g) = ground arith
  weight-lt (tells_end n c h g) = ground arith
  weight-lt (sender_writes n m h g) = ground arith
  weight-lt (sender_skips n m h g) = ground arith
  weight-lt (sender_reports n h g) = ground arith
  weight-lt (report_fails n h g) = ground arith
  weight-lt (sender_closes n h g) = ground arith
  weight-lt (receiver_closes n h g) = ground arith

  pub answer_weight-lt : {n o : Tasks P} → Answer n o → weight o < weight n
  answer_weight-lt (write_ends n h) = ground arith
  answer_weight-lt (write_fails n h) = ground arith
  answer_weight-lt (close_ends n h) = ground arith

  pub weight-user :
      (n : Tasks P) (m : ConnectionMessage P) → weight (record n { user = some m }) ≤ 7 + weight n
  weight-user n m = omega arith

  pub weight-telling :
      (n : Tasks P) (c : Connection P) (e : ConnectionEvent P)
      → n.connection ≡ ConnectionAt.telling c e
      → weight (record n { connection = ConnectionAt.closing_receiver c }) < weight n
  weight-telling n c e h = ground arith

  pub weight-telling_end :
      (n : Tasks P) (c : Connection P)
      → n.connection ≡ ConnectionAt.telling_end c
      → weight (record n { connection = ConnectionAt.ended }) < weight n
  weight-telling_end n c h = ground arith

  -- `k` steps of the tasks, where the websocket lets writes and closes end, with nothing else from
  -- outside in between.
  pub data Works : ℕ → Tasks P → Tasks P → Type 0 where
    done : (n : Tasks P) → Works zero n n
    and_then : {k : ℕ} {n o p : Tasks P} → Work n o → Works k o p → Works (suc k) n p
    and_ends : {k : ℕ} {n o p : Tasks P} → Answer n o → Works k o p → Works (suc k) n p

  Works-weight : {k : ℕ} {n o : Tasks P} → Works k n o → k + weight o ≤ weight n
  Works-weight (done n) = omega arith
  Works-weight (and_then s ss) = omega (arith, weight-lt s, Works-weight ss)
  Works-weight (and_ends s ss) = omega (arith, answer_weight-lt s, Works-weight ss)

  pub weight-le : (n : Tasks P) → weight n ≤ 48
  weight-le n = omega (
    arith,
    connection_weight-le n.connection,
    sender_weight-le n.sender,
    receiver_weight-le n.receiver,
    held_weight-le 7 n.user,
    held_weight-le 2 n.inside,
    held_weight-le 5 n.for_sender,
    held_weight-le 1 n.for_receiver,
  )

  pub Works-le : {k : ℕ} {n o : Tasks P} → Works k n o → k ≤ 48
  Works-le {n = n} ss = omega (arith, Works-weight ss, weight-le n)
