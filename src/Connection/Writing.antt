-- ===== src/Connection/Writing.antt =====
-- src/connection/sender.rs: what the sender's task writes to the websocket.
use rrev.Prelude.{
  ◌≡◌, refl, ap, ◌∙◌, String, Option, none, some, List, [], ◌∷◌, ◌++◌, arith, inl, inr,
  Option-cases, push_all,
}
use rrev.Channel.{WsError, WsStream}
use rrev.Scheme.{Parser, OurMessage}
use rrev.Runtime.{Tokio, World, Wire, Entry, wrote, closed, ws_send}
use rrev.Connection.Types.{Sender, SenderMessage}
use rrev.Connection.Sender.{report, send, handle_message, run}

module _ {P : Parser} where
  -- The texts that were written, newest first, also where the write failed.
  abbrev pub texts : List (Entry P) → List String
  texts [] = []
  texts (wrote _ text _ ∷ h) = text ∷ texts h
  texts (_ ∷ h) = texts h

  -- The streams that were closed.
  abbrev pub shut_streams : List (Entry P) → List WsStream
  shut_streams [] = []
  shut_streams (closed s ∷ h) = s ∷ shut_streams h
  shut_streams (_ ∷ h) = shut_streams h

  -- The texts of the messages before the first close, in order.
  abbrev pub serialized : Wire P → List (SenderMessage P) → List String
  serialized wire [] = []
  serialized wire (SenderMessage.close ∷ ms) = []
  serialized wire (SenderMessage.message m ∷ ms) = elim (wire.to_string m) [
    | none ↦ serialized wire ms
    | some text ↦ text ∷ serialized wire ms
  ]

  abbrev pub after_close : List (SenderMessage P) → List (SenderMessage P)
  after_close [] = []
  after_close (SenderMessage.close ∷ ms) = ms
  after_close (SenderMessage.message _ ∷ ms) = after_close ms

  abbrev pub closings : WsStream → List (SenderMessage P) → List WsStream
  closings s [] = []
  closings s (SenderMessage.close ∷ ms) = s ∷ []
  closings s (SenderMessage.message _ ∷ ms) = closings s ms

module _ {P : Parser} {tokio : Tokio P} (wire : Wire P) where
  pub report-texts :
      (s : Sender P) (e : Option WsError) (w : World tokio)
      → (texts (report s e w).1.history ≡ texts w.history)
        × (shut_streams (report s e w).1.history ≡ shut_streams w.history)
  unfolding report
  report-texts s none w = (refl, refl)
  report-texts s (some WsError.connection_closed) w = (refl, refl)
  report-texts s (some WsError.protocol) w = (refl, refl)
  report-texts s (some WsError.utf8) w = (refl, refl)
  report-texts s (some WsError.other) w = (refl, refl)

  send-texts :
      (s : Sender P) (m : OurMessage P) (ms : List (SenderMessage P)) (w : World tokio)
      → (push_all (serialized wire ms) (texts (send wire s m w).1.history)
          ≡ push_all (serialized wire (SenderMessage.message m ∷ ms)) (texts w.history))
        × (shut_streams (send wire s m w).1.history ≡ shut_streams w.history)
  unfolding send
  send-texts s m ms w = elim (Option-cases (wire.to_string m)) [
    | inl e ↦ ground arith
    | inr (text, e) ↦
        let (_, w') = ws_send s.ws_sender text w in
        ground (arith, report-texts s (ws_send s.ws_sender text w).0 w')
  ]

  run-message :
      (s : Sender P) (m : OurMessage P) (ms : List (SenderMessage P)) (w : World tokio)
      → run wire s (SenderMessage.message m ∷ ms) w ≡ run wire s ms (send wire s m w).1
  unfolding run handle_message
  run-message s m ms w = refl

  -- The sender's task writes the texts of all messages before the first close, each once and in
  -- order, also after a failed write. It leaves what follows the close unread, and closes the
  -- stream if there is a close.
  pub run-texts :
      (s : Sender P) (ms : List (SenderMessage P)) (w : World tokio)
      → let (rest, w') = run wire s ms w in
        (texts w'.history ≡ push_all (serialized wire ms) (texts w.history))
        × (shut_streams w'.history ≡ closings s.ws_sender ms ++ shut_streams w.history)
        × (rest ≡ after_close ms)
  run-texts s [] w = unfold run in (refl, refl, refl)
  run-texts s (SenderMessage.close ∷ ms) w = unfold run handle_message in (refl, refl, refl)
  run-texts s (SenderMessage.message m ∷ ms) w =
      let w' : World tokio = (send wire s m w).1 in
      let (ih, shut, left) = run-texts s ms w' in
      let (one, same) = send-texts s m ms w in
      rw (run-message s m ms w) (ih ∙ one, shut ∙ ap (λ l. closings s.ws_sender ms ++ l) same, left)
