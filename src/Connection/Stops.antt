-- ===== src/Connection/Stops.antt =====
-- src/connection.rs: when a turn ends the loop of `run`.
use rrev.Prelude.{
  ◌≡◌, ◌≢◌, ◌↔◌, ◌⊎◌, refl, ap, false, List, ◌∷◌, ℕ_discrete, stop, ok, arith, length, inl, inr,
  Option-cases,
}
use rrev.Prelude.Map.{get}
use rrev.Channel.{OneshotSender}
use rrev.Scheme.{Parser, Message}
use rrev.Runtime.{Tokio, World, Packet, Entry, sent, answer, to_sender, to_owner}
use rrev.Connection.Types.{
  Answer, Connection, ConnectionEvent, ConnectionMessage, InternalMessage, SenderMessage,
}
use rrev.Connection.{Turn, external, internal, handle_turn}

cons-ne_self {ℓ} : {A : Type ℓ} (x : A) (xs : List A) → x ∷ xs ≢ xs
cons-ne_self x xs e = absurd (omega (arith, ap length e))

-- The turn tried to send `p`, which is no answer to a request, and the channel was closed.
abbrev Failed : {P : Parser} → Packet P → List (Entry P) → List (Entry P) → Type 0
Failed {P} p before after =
    (after ≡ sent p false ∷ before)
    × ((tx : OneshotSender (Answer P)) (a : Answer P) → p ≢ answer tx a)

abbrev request_packet : {P : Parser} → Connection P → P.OurRequest → Packet P
request_packet c q =
    to_sender c.sender_hdl.tx
      (SenderMessage.message (Message.request (record { id = c.next_id; payload = q })))

module _ {P : Parser} {tokio : Tokio P} where
  -- A turn ends the loop exactly when it takes a close, or fails to pass a message on; a reply
  -- that nobody receives any more does not count.
  handle_turn-eq-stop_iff :
      (c : Connection P) (t : Turn P) (w : World tokio)
      → ((handle_turn c t w).0.1 ≡ stop) ↔ (
          (t ≡ external ConnectionMessage.close)
          ⊎ ((t ≡ internal InternalMessage.close)
              ⊎ ((p : Packet P) × Failed p w.history (handle_turn c t w).1.history)))
  unfolding handle_turn
  handle_turn-eq-stop_iff c (external ConnectionMessage.close) w = (λ _. inl refl, λ _. refl)
  handle_turn-eq-stop_iff c (external (ConnectionMessage.event e)) w = (
    λ h. inr (
        inr (
          to_sender c.sender_hdl.tx (SenderMessage.message (Message.event e)),
          (ground arith, λ tx a. cc),
        )),
    λ r. ground arith,
  )
  handle_turn-eq-stop_iff c (external (ConnectionMessage.request q tx)) w = (
    λ h. inr (inr (request_packet c q, (ground arith, λ tx' a. cc))),
    elim [
      | inl e ↦ cc
      | inr (inl e) ↦ cc
      | inr (inr (p, (h, _))) ↦ ground (arith, cons-ne_self (sent p false) w.history)
    ],
  )
  handle_turn-eq-stop_iff c (internal InternalMessage.close) w = (λ _. inr (inl refl), λ _. refl)
  handle_turn-eq-stop_iff c (internal (InternalMessage.new_message (Message.request r))) w = (
    λ h. inr (
        inr (
          to_owner c.event_tx
              (ConnectionEvent.request_message (record { request = r; sender_hdl = c.sender_hdl })),
          (ground arith, λ tx a. cc),
        )),
    λ r. ground arith,
  )
  handle_turn-eq-stop_iff c (internal (InternalMessage.new_message (Message.reply r))) w = (
    λ h. ground arith,
    elim [
      | inl e ↦ cc
      | inr (inl e) ↦ cc
      | inr (inr (p, (h, n))) ↦ elim (Option-cases (get ℕ_discrete r.id c.reply_map)) [
        | inl e ↦ ground (arith, cons-ne_self (sent p false) w.history)
        | inr (tx, e) ↦ absurd (n tx (ok r.payload) (ground arith))
      ]
    ],
  )
  handle_turn-eq-stop_iff c (internal (InternalMessage.new_message (Message.event r))) w = (
    λ h.
        inr
          (inr (to_owner c.event_tx (ConnectionEvent.event_message r), (ground arith, λ tx a. cc))),
    λ r. ground arith,
  )
