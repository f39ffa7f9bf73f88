-- ===== src/Peers.antt =====
-- Two programs at the ends of one websocket: what src/connection/sender.rs writes on one side and
-- what src/connection/receiver.rs reads on the other, and how a request of one side is answered by
-- src/scheme/request_handle.rs on the other.
pub mod RoundTrip
use rrev.Prelude.{
  ◌≡◌, refl, ap, ◌∙◌, String, some, List, [], ◌∷◌, ok, arith, map, push_all, push_all-push_all,
}
use mathlib.Core.List.{append-nil, map-map, head-eq_of_cons-eq, tail-eq_of_cons-eq}
use rrev.Scheme.{Parser, Message, Request, OurMessage, TheirMessage}
use rrev.Runtime.{Tokio, World, Wire, to_internal, to_owner, to_sender, packets}
use rrev.Connection.Types.{
  Connection, ConnectionEvent, InternalMessage, RequestHandle, Sender, SenderMessage, Receiver,
}
use rrev.Connection.{internal, handle_turn}
use rrev.Connection.RequestHandle as Handle
use rrev.Connection.Receiver as Reader
use rrev.Connection.Receiver.{ReceiverTurn, from_ws}
use rrev.Connection.Sender as Writer
use rrev.Connection.Reading.{heard, run-heard}
use rrev.Connection.Writing.{texts, serialized, run-texts}

-- How the other side reads our payloads.
pub record Reads (P Q : Parser) : Type 0 where
  pub request : P.OurRequest → Q.TheirRequest
  pub reply : P.OurReply → Q.TheirReply
  pub event : P.OurEvent → Q.TheirEvent

module _ {P Q : Parser} where
  -- What arrives for a message: ids stay as they are.
  abbrev pub read : Reads P Q → OurMessage P → TheirMessage Q
  read f (Message.request r) = Message.request (record { id = r.id; payload = f.request r.payload })
  read f (Message.reply r) = Message.reply (record { id = r.id; payload = f.reply r.payload })
  read f (Message.event e) = Message.event (f.event e)

  -- serde writes every message of one side, and reads its text back on the other.
  pub record Agree (f : Reads P Q) (ours : Wire P) (theirs : Wire Q) : Type 0 where
    pub text : OurMessage P → String
    pub writes : (m : OurMessage P) → ours.to_string m ≡ some (text m)
    pub reads_back : (m : OurMessage P) → theirs.from_str (text m) ≡ some (read f m)

module _ {P Q : Parser} {f : Reads P Q} (ours : Wire P) (theirs : Wire Q)
    (agree : Agree f ours theirs) where
  -- All messages can be written.
  serialized-map :
      (ms : List (OurMessage P))
      → serialized ours (map SenderMessage.message ms) ≡ map agree.text ms
  serialized-map [] = refl
  serialized-map (m ∷ ms) = ground (arith, agree.writes m, serialized-map ms)

  -- Frames with the texts of messages are heard as the messages.
  heard-map :
      (ms : List (OurMessage P)) (frames : List theirs.Frame)
      → map theirs.to_text frames ≡ map (λ m. some (agree.text m)) ms
      → heard theirs (map (λ x. from_ws (some (ok x))) frames)
        ≡ map (λ m. InternalMessage.new_message (read f m)) ms
  heard-map [] [] h = refl
  heard-map [] (x ∷ frames) h = cc
  heard-map (m ∷ ms) [] h = cc
  heard-map (m ∷ ms) (x ∷ frames) h =
      ground (
        arith,
        head-eq_of_cons-eq h,
        agree.reads_back m,
        heard-map ms frames (tail-eq_of_cons-eq h),
      )

module _ {P Q : Parser} {here : Tokio P} {there : Tokio Q} {f : Reads P Q} where
  -- What the tasks of the two halves make of a stream of messages, if serde reads back what it
  -- writes: if frames with the texts that were written come in their order, then the messages that
  -- one side's sender is given arrive at the other side's connection, each once and in order, with
  -- their ids.
  pub run-run :
      (ours : Wire P) (theirs : Wire Q) (s : Sender P) (ms : List (OurMessage P)) (w : World here)
      (r : Receiver Q) (frames : List theirs.Frame) (v : World there)
      → Agree f ours theirs
      → texts w.history ≡ []
      → map theirs.to_text frames
        ≡ map
            (λ t. some t)
            (push_all (texts (Writer.run ours s (map SenderMessage.message ms) w).1.history) [])
      → packets (Reader.run theirs r (map (λ x. from_ws (some (ok x))) frames) v).1.history
        ≡ push_all
            (map
              (λ m. to_internal r.connection_handle.tx (InternalMessage.new_message (read f m)))
              ms)
            (packets v.history)
  run-run ours theirs s ms w r frames v agree first carried =
      let told = run-texts ours s (map SenderMessage.message ms) w in
      let written : texts (Writer.run ours s (map SenderMessage.message ms) w).1.history
          ≡ push_all (map agree.text ms) [] =
        told.0 ∙ cc (serialized-map ours theirs agree ms, first) in
      let in_order : push_all (texts (Writer.run ours s (map SenderMessage.message ms) w).1.history)
            []
          ≡ map agree.text ms =
        ap (λ l. push_all l []) written
        ∙ push_all-push_all (map agree.text ms) [] []
        ∙ append-nil (map agree.text ms) in
      let framed =
        carried ∙ ap (map (λ t. some t)) in_order ∙ map-map (λ t. some t) agree.text ms in
      run-heard theirs r (map (λ x. from_ws (some (ok x))) frames) v
      ∙ ap (λ l. push_all (map (to_internal r.connection_handle.tx) l) (packets v.history))
          (heard-map ours theirs agree ms frames framed)
      ∙ ap (λ l. push_all l (packets v.history))
          (map-map (to_internal r.connection_handle.tx)
            (λ m. InternalMessage.new_message (read f m)) ms)

module _ {Q : Parser} {tokio : Tokio Q} where
  -- A request of the other side comes to the owner with a handle that holds its payload, and the
  -- reply that the owner gives to the handle goes to the sender with the id of the request.
  pub complete_request :
      (d : Connection Q) (r : Request Q.TheirRequest) (payload : Q.OurReply) (w v : World tokio)
      → (hdl : RequestHandle Q) × (packets
            (handle_turn d (internal (InternalMessage.new_message (Message.request r))) w).1.history
          ≡ to_owner d.event_tx (ConnectionEvent.request_message hdl) ∷ packets w.history)
        × (Handle.get_request hdl ≡ r.payload)
        × (packets (Handle.complete hdl payload v).1.history
            ≡ to_sender d.sender_hdl.tx
                (SenderMessage.message (Message.reply (record { id = r.id; payload = payload })))
              ∷ packets v.history)
  unfolding handle_turn Handle.complete
  complete_request d r payload w v = (Handle.new r d.sender_hdl, refl, refl, refl)
