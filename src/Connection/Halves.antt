-- ===== src/Connection/Halves.antt =====
-- src/connection/sender.rs and src/connection/receiver.rs: where the two halves of a connection wait.
use rrev.Prelude.{◌≡◌, ◌≢◌, ◌⊎◌, inl, inr, none, Option-cases}
use rrev.Scheme.{Parser}
use rrev.Connection.Types.{InternalMessage, SenderMessage, ReceiverMessage}
use rrev.Connection.Waiting.{
  Tasks, SenderAt, ReceiverAt, Work, sender_writes, sender_reports, sender_closes, receiver_reports,
  receiver_closes,
}

module _ {P : Parser} where
  -- A step that some task can take.
  abbrev pub Goes : Tasks P → Type 0
  Goes n = (o : Tasks P) × Work n o

  -- The sender waits until the websocket lets a write or a close end.
  abbrev pub OnSocket : Tasks P → Type 0
  OnSocket n = (n.sender ≡ SenderAt.writing) ⊎ (n.sender ≡ SenderAt.closing)

  -- The sender has ended, or it waits for a message, or to report into a full channel.
  abbrev pub SenderWaits : Tasks P → Type 0
  SenderWaits n =
      (n.sender ≡ SenderAt.ended)
      ⊎ (((n.sender ≡ SenderAt.receiving) × (n.for_sender ≡ none))
          ⊎ ((n.sender ≡ SenderAt.reporting) × (n.inside ≢ none)))

  -- The receiver likewise.
  abbrev pub ReceiverWaits : Tasks P → Type 0
  ReceiverWaits n =
      (n.receiver ≡ ReceiverAt.ended)
      ⊎ (((n.receiver ≡ ReceiverAt.reading) × (n.for_receiver ≡ none))
          ⊎ ((m : InternalMessage P) × (n.receiver ≡ ReceiverAt.reporting m) × (n.inside ≢ none)))

  pub sender-Goes :
      (n : Tasks P) (a : SenderAt) → n.sender ≡ a → Goes n ⊎ (OnSocket n ⊎ SenderWaits n)
  sender-Goes n SenderAt.writing h = inr (inl (inl h))
  sender-Goes n SenderAt.closing h = inr (inl (inr h))
  sender-Goes n SenderAt.ended h = inr (inr (inl h))
  sender-Goes n SenderAt.receiving h = elim (Option-cases n.for_sender) [
    | inl e ↦ inr (inr (inr (inl (h, e))))
    | inr (SenderMessage.message m, e) ↦ inl (_, sender_writes n m h e)
    | inr (SenderMessage.close, e) ↦ inl (_, sender_closes n h e)
  ]
  sender-Goes n SenderAt.reporting h = elim (Option-cases n.inside) [
    | inl e ↦ inl (_, sender_reports n h e)
    | inr (m, e) ↦ inr (inr (inr (inr (h, λ q. cc (q, e)))))
  ]

  pub receiver-Goes : (n : Tasks P) (a : ReceiverAt P) → n.receiver ≡ a → Goes n ⊎ ReceiverWaits n
  receiver-Goes n ReceiverAt.ended h = inr (inl h)
  receiver-Goes n ReceiverAt.reading h = elim (Option-cases n.for_receiver) [
    | inl e ↦ inr (inr (inl (h, e)))
    | inr (ReceiverMessage.close, e) ↦ inl (_, receiver_closes n h e)
  ]
  receiver-Goes n (ReceiverAt.reporting m) h = elim (Option-cases n.inside) [
    | inl e ↦ inl (_, receiver_reports n m h e)
    | inr (x, e) ↦ inr (inr (inr (m, h, λ q. cc (q, e))))
  ]
