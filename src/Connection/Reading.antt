-- ===== src/Connection/Reading.antt =====
-- src/connection/receiver.rs: what the receiver's task makes of the websocket's frames.
use rrev.Prelude.{
  ◌≡◌, refl, none, some, List, [], ◌∷◌, ok, err, arith, map, inl, inr, Option-cases, push_all,
}
use rrev.Channel.{WsError}
use rrev.Scheme.{Parser}
use rrev.Runtime.{Tokio, World, Wire, to_internal, packets}
use rrev.Connection.Types.{Receiver, ReceiverMessage, InternalMessage}
use rrev.Connection.InternalHdl
use rrev.Connection.Receiver.{ReceiverTurn, command, from_ws, handle_turn, run}

module _ {P : Parser} (wire : Wire P) where
  -- The message in a frame goes on, and a frame with none is skipped.
  abbrev heard_frame : wire.Frame → List (InternalMessage P) → List (InternalMessage P)
  heard_frame frame rest = elim (wire.to_text frame) [
    | none ↦ rest
    | some text ↦ elim (wire.from_str text) [
      | none ↦ rest
      | some m ↦ InternalMessage.new_message m ∷ rest
    ]
  ]

  -- What the connection is told, in order: the messages in the frames, up to a close by the
  -- connection, which is not reported back, or the end of the stream or a fatal error, which is.
  abbrev pub heard : List (ReceiverTurn wire) → List (InternalMessage P)
  heard [] = []
  heard (command _ ∷ ts) = []
  heard (from_ws none ∷ ts) = InternalMessage.close ∷ []
  heard (from_ws (some (err WsError.other)) ∷ ts) = heard ts
  heard (from_ws (some (err _)) ∷ ts) = InternalMessage.close ∷ []
  heard (from_ws (some (ok frame)) ∷ ts) = heard_frame frame (heard ts)

module _ {P : Parser} {tokio : Tokio P} (wire : Wire P) where
  -- The receiver's task sends the connection just the messages of `heard`, in that order.
  pub run-heard :
      (r : Receiver P) (ts : List (ReceiverTurn wire)) (w : World tokio)
      → packets (run wire r ts w).1.history
        ≡ push_all (map (to_internal r.connection_handle.tx) (heard wire ts)) (packets w.history)
  unfolding run handle_turn
  run-heard r [] w = refl
  run-heard r (command ReceiverMessage.close ∷ ts) w = refl
  run-heard r (from_ws none ∷ ts) w = refl
  run-heard r (from_ws (some (err WsError.connection_closed)) ∷ ts) w = refl
  run-heard r (from_ws (some (err WsError.protocol)) ∷ ts) w = refl
  run-heard r (from_ws (some (err WsError.utf8)) ∷ ts) w = refl
  run-heard r (from_ws (some (err WsError.other)) ∷ ts) w = run-heard r ts w
  run-heard r (from_ws (some (ok frame)) ∷ ts) w = elim (Option-cases (wire.to_text frame)) [
    | inl e ↦ ground (arith, run-heard r ts w)
    | inr (text, e) ↦ elim (Option-cases (wire.from_str text)) [
      | inl d ↦ ground (arith, run-heard r ts w)
      | inr (m, d) ↦
          ground (arith, run-heard r ts (InternalHdl.new_message r.connection_handle m w).1)
    ]
  ]
