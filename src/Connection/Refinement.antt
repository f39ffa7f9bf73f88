-- ===== src/Connection/Refinement.antt =====
-- src/connection.rs: what one turn of a connection does, told without the representation of its
-- reply map: which requests wait, and the one message that the turn sends.
use rrev.Prelude.{ℕ, ◌+◌, ◌≡◌, Option, none, some, List, [], ◌∷◌, ◌++◌, ℕ_discrete, ok, arith, ite}
use rrev.Prelude.Map.{get, get-erase, get-insert}
use rrev.Channel.{OneshotSender, MpscSender}
use rrev.Scheme.{Parser, Message}
use rrev.Runtime.{Tokio, World, Packet, answer, to_owner, to_sender, packets}
use rrev.Connection.Types.{
  Answer, Connection, ConnectionEvent, ConnectionMessage, InternalMessage, SenderMessage, SenderHdl,
}
use rrev.Connection.{Turn, external, internal, handle_turn}
use rrev.Connection.Ledger.{WellFormed, HasRoom}

-- Ids below `issued` were given out; `pending` has the oneshot of each id that waits.
pub record View (P : Parser) : Type 0 where
  pub issued : ℕ
  pub pending : ℕ → Option (OneshotSender (Answer P))

abbrev pub view : {P : Parser} → Connection P → View P
view c = record { issued = c.next_id; pending = λ k. get ℕ_discrete k c.reply_map }

View-ext :
    {P : Parser} {u v : View P}
    → u.issued ≡ v.issued
    → ((k : ℕ) → u.pending k ≡ v.pending k)
    → u ≡ v
View-ext p q = λ i. record { issued = p i; pending = λ k. q k i }

abbrev update : {A : Type 0} → (ℕ → A) → ℕ → A → ℕ → A
update f k a j = ite (ℕ_discrete k j) a (f j)

module _ {P : Parser} where
  -- A request is filed under the next id, a reply takes its id out, and nothing else counts.
  abbrev pub next_view : View P → Turn P → View P
  next_view v (external (ConnectionMessage.request _ tx)) = record {
    issued = v.issued + 1;
    pending = update v.pending v.issued (some tx);
  }
  next_view v (internal (InternalMessage.new_message (Message.reply r))) = record {
    issued = v.issued;
    pending = update v.pending r.id none;
  }
  next_view v _ = v

  abbrev answer_to : Option (OneshotSender (Answer P)) → P.TheirReply → List (Packet P)
  answer_to none _ = []
  answer_to (some tx) payload = answer tx (ok payload) ∷ []

  -- The messages that a turn sends over these handles: one, or none for a close and a reply that
  -- nobody waits for.
  abbrev pub emitted_by :
      SenderHdl P → MpscSender (ConnectionEvent P) → View P → Turn P → List (Packet P)
  emitted_by hdl event_tx v (external ConnectionMessage.close) = []
  emitted_by hdl event_tx v (external (ConnectionMessage.request q _)) =
      to_sender hdl.tx
        (SenderMessage.message (Message.request (record { id = v.issued; payload = q })))
      ∷ []
  emitted_by hdl event_tx v (external (ConnectionMessage.event e)) =
      to_sender hdl.tx (SenderMessage.message (Message.event e)) ∷ []
  emitted_by hdl event_tx v (internal InternalMessage.close) = []
  emitted_by hdl event_tx v (internal (InternalMessage.new_message (Message.request r))) =
      to_owner event_tx (ConnectionEvent.request_message (record { request = r; sender_hdl = hdl }))
      ∷ []
  emitted_by hdl event_tx v (internal (InternalMessage.new_message (Message.reply r))) =
      answer_to (v.pending r.id) r.payload
  emitted_by hdl event_tx v (internal (InternalMessage.new_message (Message.event e))) =
      to_owner event_tx (ConnectionEvent.event_message e) ∷ []

  abbrev pub emitted : Connection P → Turn P → List (Packet P)
  emitted c = emitted_by c.sender_hdl c.event_tx (view c)

module _ {P : Parser} {tokio : Tokio P} where
  -- A turn of a well-formed connection with room for one more id changes the requests that wait as
  -- `next_view` says, and sends just the messages of `emitted`.
  pub handle_turn_refines :
      (c : Connection P) (t : Turn P) (w : World tokio)
      → HasRoom c t
      → WellFormed c
      → let ((c', flow), w') = handle_turn c t w in
        (view c' ≡ next_view (view c) t) × (packets w'.history ≡ emitted c t ++ packets w.history)
  unfolding handle_turn
  handle_turn_refines c (external (ConnectionMessage.request q tx)) w room v = (
    View-ext (ground (arith, v.bounded c.next_id)) (λ k.
        ground (arith, v.bounded c.next_id, get-insert ℕ_discrete k c.next_id tx c.reply_map)),
    ground (arith, v.bounded c.next_id),
  )
  handle_turn_refines c (internal (InternalMessage.new_message (Message.reply r))) w room v = (
    View-ext (ground arith) (λ k. ground (arith, get-erase ℕ_discrete k r.id c.reply_map)),
    ground arith,
  )
  handle_turn_refines c _ w room v = ground arith
