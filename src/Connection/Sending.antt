-- ===== src/Connection/Sending.antt =====
-- src/connection.rs: what goes from the user of a connection to its sender, and what the sender is to write of it.
use mathlib.Core.List.{append-nil, append_assoc, Sublist, nil-sublist}
use mathlib.Core.List.Sublist as Sub
use rrev.Prelude.{
  ◌≡◌, refl, sym, ap, ◌∙◌, ◌⊎◌, inl, inr, List, [], ◌∷◌, ◌++◌, arith, ControlFlow-cases, Bool-cases,
  ℕ_discrete,
}
use rrev.Prelude.Map.{contains_key}
use rrev.Prelude.Prefix.{flat, said}
use rrev.Prelude.{map}
use rrev.Runtime.{Wire}
use rrev.Connection.Writing.{serialized}
use rrev.Scheme.{Parser, Message, OurMessage}
use rrev.Runtime.{Tokio, World, Packet, Entry, to_sender, packets}
use rrev.Connection.Types.{Connection, ConnectionMessage, InternalMessage, SenderMessage}
use rrev.Connection.{Turn, external, internal, handle_turn, run_loop, run}
use rrev.Connection.Loop.{run_loop-go_on, run_loop-stop, run-go_on, run-stop}
use rrev.Connection.Ending.{Deaf, finish-said}

-- What a user asks for: a request or an event, with its payload.
abbrev pub Call : Parser → Type 0
Call P = P.OurRequest ⊎ P.OurEvent

-- The calls in a message, if it is not a reply.
abbrev pub out_calls : {Q R E : Type 0} → Message Q R E → List (Q ⊎ E)
out_calls (Message.request r) = inl r.payload ∷ []
out_calls (Message.event e) = inr e ∷ []
out_calls (Message.reply r) = []

module _ {P : Parser} where
  -- The calls in a message to the connection, in a turn, and in a packet to the sender.
  abbrev pub calls : ConnectionMessage P → List (Call P)
  calls ConnectionMessage.close = []
  calls (ConnectionMessage.request q tx) = inl q ∷ []
  calls (ConnectionMessage.event e) = inr e ∷ []

  abbrev pub turn_calls : Turn P → List (Call P)
  turn_calls (external m) = calls m
  turn_calls (internal m) = []

  abbrev pub sent_sender : Packet P → List (Call P)
  sent_sender (to_sender tx (SenderMessage.message m)) = out_calls m
  sent_sender _ = []

  sent_sender-Deaf : Deaf sent_sender
  sent_sender-Deaf = record {
    to_answers = λ tx r. refl;
    to_receivers = λ tx m. refl;
    to_senders = λ tx. refl;
    to_owners = λ tx. refl;
  }

-- `f` said more, and that is a sublist of `ys`.
abbrev pub SaidMore :
    {P : Parser} {A : Type 0}
    → (Packet P → List A)
    → List (Packet P)
    → List (Packet P)
    → List A
    → Type 0
SaidMore {A} f before after ys =
    (xs : List A) × (said f after ≡ said f before ++ xs) × Sublist xs ys

pub SaidMore-trans :
    {P : Parser} {A : Type 0} (f : Packet P → List A) (h i j : List (Packet P)) (xs ys : List A)
    → SaidMore f h i xs
    → SaidMore f i j ys
    → SaidMore f h j (xs ++ ys)
SaidMore-trans f h i j xs ys (a, e, s) (b, d, t) =
    (a ++ b, d ∙ ap (λ l. l ++ b) e ∙ append_assoc (said f h) a b, Sub.append s t)

module _ {P : Parser} {tokio : Tokio P} where
  handle_turn_sends :
      (c : Connection P) (t : Turn P) (w : World tokio)
      → SaidMore sent_sender
          (packets w.history)
          (packets (handle_turn c t w).1.history)
          (turn_calls t)
  unfolding handle_turn
  handle_turn_sends c (external ConnectionMessage.close) w = ([], sym (append-nil _), Sub.refl _)
  handle_turn_sends c (external (ConnectionMessage.event e)) w = (_, refl, Sub.refl _)
  handle_turn_sends c (external (ConnectionMessage.request q tx)) w =
      elim (Bool-cases (contains_key ℕ_discrete c.next_id c.reply_map)) [
        | inl e ↦
            ([], ground (arith, append-nil (said sent_sender (packets w.history))), nil-sublist _)
        | inr e ↦ (inl q ∷ [], ground arith, Sub.refl _)
      ]
  handle_turn_sends c (internal InternalMessage.close) w = ([], sym (append-nil _), Sub.refl _)
  handle_turn_sends c (internal (InternalMessage.new_message (Message.request r))) w =
      ([], refl, Sub.refl _)
  handle_turn_sends c (internal (InternalMessage.new_message (Message.reply r))) w =
      ([], ground (arith, append-nil (said sent_sender (packets w.history))), Sub.refl _)
  handle_turn_sends c (internal (InternalMessage.new_message (Message.event e))) w =
      ([], refl, Sub.refl _)

  run_loop_sends :
      (ts : List (Turn P)) (c : Connection P) (w : World tokio)
      → SaidMore sent_sender
          (packets w.history)
          (packets (run_loop c ts w).1.history)
          (flat turn_calls ts)
  run_loop_sends [] c w = unfold run_loop in ([], sym (append-nil _), Sub.refl _)
  run_loop_sends (t ∷ ts) c w =
      let w' : World tokio = (handle_turn c t w).1 in
      let one = handle_turn_sends c t w in
      elim (ControlFlow-cases (handle_turn c t w).0.1) [
        | inl e ↦ rw (run_loop-go_on c t ts w e) (
            SaidMore-trans sent_sender (packets w.history) (packets w'.history)
              (packets (run_loop (handle_turn c t w).0.0 ts w').1.history) _ _ one
              (run_loop_sends ts (handle_turn c t w).0.0 w'))
        | inr e ↦ rw (run_loop-stop c t ts w e) (
            SaidMore-trans sent_sender (packets w.history) (packets w'.history) (packets w'.history)
              _ _ one ([], sym (append-nil _), nil-sublist _))
      ]

  -- The sender is given a sublist of the requests and events that the connection takes: no request
  -- is sent under an id that is still in use.
  pub run_sends :
      (c : Connection P) (ts : List (Turn P)) (w : World tokio)
      → w.history ≡ []
      → Sublist (said sent_sender (packets (run c ts w).1.history)) (flat turn_calls ts)
  run_sends c ts w fresh =
      let (p, w') = run_loop c ts w in
      let (xs, all, sub) = run_loop_sends ts c w in
      let start : said sent_sender (packets w.history) ++ xs ≡ xs =
        ap (λ (h : List (Entry P)). said sent_sender (packets h) ++ xs) fresh in
      elim (ControlFlow-cases p.flow) [
        | inl e ↦ rw (run-go_on c ts w e, all ∙ start) sub
        | inr e ↦
            rw
              (run-stop c ts w e, finish-said sent_sender p.state w' sent_sender-Deaf ∙ all ∙ start)
              sub
      ]

module _ {P : Parser} where
  abbrev pub message_calls : SenderMessage P → List (Call P)
  message_calls SenderMessage.close = []
  message_calls (SenderMessage.message m) = out_calls m

  -- What a sender is to write: the messages before the first close.
  abbrev pub before_close : List (SenderMessage P) → List (OurMessage P)
  before_close [] = []
  before_close (SenderMessage.close ∷ ss) = []
  before_close (SenderMessage.message m ∷ ss) = m ∷ before_close ss

  pub before_close-calls :
      (ss : List (SenderMessage P))
      → Sublist (flat out_calls (before_close ss)) (flat message_calls ss)
  before_close-calls [] = Sub.refl _
  before_close-calls (SenderMessage.close ∷ ss) = nil-sublist _
  before_close-calls (SenderMessage.message m ∷ ss) =
      Sub.append (Sub.refl (out_calls m)) (before_close-calls ss)

  pub before_close-serialized :
      (wire : Wire P) (ss : List (SenderMessage P))
      → serialized wire ss ≡ serialized wire (map SenderMessage.message (before_close ss))
  before_close-serialized wire [] = refl
  before_close-serialized wire (SenderMessage.close ∷ ss) = refl
  before_close-serialized wire (SenderMessage.message m ∷ ss) =
      ground (arith, before_close-serialized wire ss)
