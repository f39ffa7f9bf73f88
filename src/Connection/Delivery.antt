-- ===== src/Connection/Delivery.antt =====
-- src/connection/receiver.rs and src/connection.rs: what comes from the websocket to the owner of the
-- connection.
use mathlib.Core.List.{append-nil, append_assoc}
use rrev.Prelude.{
  ◌≡◌, refl, sym, ap, ◌∙◌, none, some, List, [], ◌∷◌, ◌++◌, ok, err, arith, map, inl, inr,
  Option-cases, ControlFlow-cases,
}
use rrev.Prelude.Prefix.{Prefix, flat, said, said-push_all}
use rrev.Channel.{WsError}
use rrev.Scheme.{Parser, Message, TheirMessage}
use rrev.Runtime.{Tokio, World, Wire, Packet, Entry, to_internal, to_owner, packets}
use rrev.Connection.Types.{
  Connection, ConnectionEvent, ConnectionMessage, InternalMessage, Receiver,
}
use rrev.Connection.{Turn, external, internal, handle_turn, run_loop, run}
use rrev.Connection.Ending.{Deaf, finish-said}
use rrev.Connection.Loop.{run_loop-go_on, run_loop-stop, run-go_on, run-stop}
use rrev.Connection.Receiver as Reader
use rrev.Connection.Receiver.{ReceiverTurn, command, from_ws}
use rrev.Connection.Reading.{heard, run-heard}

-- The messages that are for the owner: not the replies.
abbrev pub for_owner : {Q R E : Type 0} → Message Q R E → List (Message Q R E)
for_owner (Message.reply r) = []
for_owner m = m ∷ []

module _ {P : Parser} where
  abbrev pub inside_words : InternalMessage P → List (TheirMessage P)
  inside_words InternalMessage.close = []
  inside_words (InternalMessage.new_message m) = m ∷ []

  -- What a packet tells the connection, a turn takes, an event and a packet tell the owner.
  abbrev pub sent_inside : Packet P → List (TheirMessage P)
  sent_inside (to_internal tx m) = inside_words m
  sent_inside _ = []

  abbrev pub turn_words : Turn P → List (TheirMessage P)
  turn_words (external m) = []
  turn_words (internal m) = inside_words m

  abbrev pub event_words : ConnectionEvent P → List (TheirMessage P)
  event_words ConnectionEvent.close = []
  event_words (ConnectionEvent.event_message e) = Message.event e ∷ []
  event_words (ConnectionEvent.request_message h) = Message.request h.request ∷ []

  abbrev pub sent_owner : Packet P → List (TheirMessage P)
  sent_owner (to_owner tx e) = event_words e
  sent_owner _ = []

  sent_owner-Deaf : Deaf sent_owner
  sent_owner-Deaf = record {
    to_answers = λ tx r. refl;
    to_receivers = λ tx m. refl;
    to_senders = λ tx. refl;
    to_owners = λ tx. refl;
  }

  flat-map :
      (f : InternalMessage P → Packet P) (g : Packet P → List (TheirMessage P))
      (xs : List (InternalMessage P))
      → flat g (map f xs) ≡ flat (λ x. g (f x)) xs
  flat-map f g [] = refl
  flat-map f g (x ∷ xs) = ap (λ l. g (f x) ++ l) (flat-map f g xs)

module _ {P : Parser} (wire : Wire P) where
  -- The message in a frame, if there is one.
  abbrev pub frame_words : ReceiverTurn wire → List (TheirMessage P)
  frame_words (from_ws (some (ok frame))) = elim (wire.to_text frame) [
    | none ↦ []
    | some text ↦ elim (wire.from_str text) [ none ↦ [] | some m ↦ m ∷ [] ]
  ]
  frame_words _ = []

  heard-Prefix :
      (ts : List (ReceiverTurn wire))
      → Prefix (flat inside_words (heard wire ts)) (flat frame_words ts)
  heard-Prefix [] = ([], refl)
  heard-Prefix (command _ ∷ ts) = (flat frame_words ts, refl)
  heard-Prefix (from_ws none ∷ ts) = (flat frame_words ts, refl)
  heard-Prefix (from_ws (some (err WsError.other)) ∷ ts) = heard-Prefix ts
  heard-Prefix (from_ws (some (err WsError.connection_closed)) ∷ ts) = (flat frame_words ts, refl)
  heard-Prefix (from_ws (some (err WsError.protocol)) ∷ ts) = (flat frame_words ts, refl)
  heard-Prefix (from_ws (some (err WsError.utf8)) ∷ ts) = (flat frame_words ts, refl)
  heard-Prefix (from_ws (some (ok frame)) ∷ ts) =
      let (rest, e) = heard-Prefix ts in
      (
        rest,
        elim (Option-cases (wire.to_text frame)) [
          | inl n ↦ ground (arith, e)
          | inr (text, s) ↦ elim (Option-cases (wire.from_str text)) [
            | inl n ↦ ground (arith, e)
            | inr (m, d) ↦ ground (arith, e)
          ]
        ],
      )

module _ {P : Parser} {tokio : Tokio P} (wire : Wire P) where
  -- The connection is told a prefix of what the frames say.
  pub receiver_tells :
      (r : Receiver P) (ts : List (ReceiverTurn wire)) (w : World tokio)
      → w.history ≡ []
      → Prefix
          (said sent_inside (packets (Reader.run wire r ts w).1.history))
          (flat (frame_words wire) ts)
  receiver_tells r ts w fresh =
      let (rest, e) = heard-Prefix wire ts in
      let all : said sent_inside (packets (Reader.run wire r ts w).1.history)
          ≡ flat inside_words (heard wire ts) =
        ap (said sent_inside) (run-heard wire r ts w)
        ∙ said-push_all sent_inside (map (to_internal r.connection_handle.tx) (heard wire ts))
            (packets w.history)
        ∙ ap
            (λ h.
              said sent_inside (packets h)
              ++ flat sent_inside (map (to_internal r.connection_handle.tx) (heard wire ts)))
            fresh
        ∙ flat-map (to_internal r.connection_handle.tx) sent_inside (heard wire ts) in
      (rest, e ∙ ap (λ l. l ++ rest) (sym all))

-- What a turn tells the owner.
abbrev told_owner : {P : Parser} → Turn P → List (TheirMessage P)
told_owner t = flat for_owner (turn_words t)

module _ {P : Parser} {tokio : Tokio P} where
  handle_turn_tells :
      (c : Connection P) (t : Turn P) (w : World tokio)
      → said sent_owner (packets (handle_turn c t w).1.history)
        ≡ said sent_owner (packets w.history) ++ told_owner t
  unfolding handle_turn
  handle_turn_tells c (external ConnectionMessage.close) w = sym (append-nil _)
  handle_turn_tells c (external (ConnectionMessage.event e)) w = refl
  handle_turn_tells c (external (ConnectionMessage.request q tx)) w =
      ground (arith, append-nil (said sent_owner (packets w.history)))
  handle_turn_tells c (internal InternalMessage.close) w = sym (append-nil _)
  handle_turn_tells c (internal (InternalMessage.new_message (Message.request r))) w = refl
  handle_turn_tells c (internal (InternalMessage.new_message (Message.reply r))) w =
      ground (arith, append-nil (said sent_owner (packets w.history)))
  handle_turn_tells c (internal (InternalMessage.new_message (Message.event e))) w = refl

  run_loop_tells :
      (ts : List (Turn P)) (c : Connection P) (w : World tokio)
      → Prefix
          (said sent_owner (packets (run_loop c ts w).1.history))
          (said sent_owner (packets w.history) ++ flat told_owner ts)
  run_loop_tells [] c w = unfold run_loop in ([], refl)
  run_loop_tells (t ∷ ts) c w =
      let before : List (TheirMessage P) = said sent_owner (packets w.history) in
      let after : List (TheirMessage P) = flat told_owner ts in
      let one = handle_turn_tells c t w in
      elim (ControlFlow-cases (handle_turn c t w).0.1) [
        | inl e ↦
            let (rest, all) = run_loop_tells ts (handle_turn c t w).0.0 (handle_turn c t w).1 in
            rw (run_loop-go_on c t ts w e) (
              rest,
              sym (append_assoc before (told_owner t) after) ∙ ap (λ l. l ++ after) (sym one) ∙ all,
            )
        | inr e ↦
            rw (run_loop-stop c t ts w e) (
              after,
              sym (append_assoc before (told_owner t) after) ∙ ap (λ l. l ++ after) (sym one),
            )
      ]

  -- The owner is told a prefix of the requests and events that the connection takes.
  pub run_tells :
      (c : Connection P) (ts : List (Turn P)) (w : World tokio)
      → w.history ≡ []
      → Prefix (said sent_owner (packets (run c ts w).1.history)) (flat told_owner ts)
  run_tells c ts w fresh =
      let (p, w') = run_loop c ts w in
      let (rest, all) = run_loop_tells ts c w in
      let start : said sent_owner (packets w.history) ++ flat told_owner ts ≡ flat told_owner ts =
        ap (λ (h : List (Entry P)). said sent_owner (packets h) ++ flat told_owner ts) fresh in
      elim (ControlFlow-cases p.flow) [
        | inl e ↦ rw (run-go_on c ts w e) (rest, sym start ∙ all)
        | inr e ↦ rw (run-stop c ts w e) (
          rest,
          sym start
              ∙ all
              ∙ ap (λ l. l ++ rest) (sym (finish-said sent_owner p.state w' sent_owner-Deaf)),
        )
      ]
