-- ===== src/Connection/Ending.antt =====
-- src/connection.rs: what follows the loop of `run`, seen by someone that its messages are not for.
use mathlib.Core.List.{append-nil}
use rrev.Prelude.{
  ◌≡◌, refl, ap, ◌∙◌, ℕ, ℕ_discrete, none, List, [], ◌∷◌, ◌++◌, err, arith, inl, inr, Option-cases,
}
use rrev.Prelude.Map.{Map, get, erase, keys}
use rrev.Prelude.Prefix.{said}
use rrev.Channel.{OneshotSender, MpscSender}
use rrev.Error.{RequestError}
use rrev.Scheme.{Parser}
use rrev.Runtime.{
  Tokio, World, Packet, send, ask, answer, to_sender, to_receiver, to_owner, packets,
}
use rrev.Connection.Types.{Answer, Connection, ConnectionEvent, SenderMessage, ReceiverMessage}
use rrev.Connection.{cancel_keys, cancel_requests, close, finish}
use rrev.Connection.Closing.{cancel_keys-cons}

-- `f` takes nothing from an answer or a close.
pub record Deaf {P : Parser} {A : Type 0} (f : Packet P → List A) : Type 0 where
  pub to_answers : (tx : OneshotSender (Answer P)) (r : Answer P) → f (answer tx r) ≡ []
  pub to_receivers :
      (tx : MpscSender ReceiverMessage) (m : ReceiverMessage) → f (to_receiver tx m) ≡ []
  pub to_senders : (tx : MpscSender (SenderMessage P)) → f (to_sender tx SenderMessage.close) ≡ []
  pub to_owners : (tx : MpscSender (ConnectionEvent P)) → f (to_owner tx ConnectionEvent.close) ≡ []

unheard :
    {P : Parser} {A : Type 0} (f : Packet P → List A) (p : Packet P) (ps : List (Packet P))
    → f p ≡ []
    → said f (p ∷ ps) ≡ said f ps
unheard f p ps e = ap (λ l. said f ps ++ l) e ∙ append-nil (said f ps)

module _ {P : Parser} {tokio : Tokio P} {A : Type 0} (f : Packet P → List A) where
  cancel_keys-skip :
      (k : ℕ) (ks : List ℕ) (c : Connection P) (w : World tokio)
      → get ℕ_discrete k c.reply_map ≡ none
      → cancel_keys (k ∷ ks) c w
        ≡ cancel_keys ks (record c { reply_map = erase ℕ_discrete k c.reply_map }) w
  unfolding cancel_keys
  cancel_keys-skip k ks c w e = ground arith

  cancel_keys-said :
      (ks : List ℕ) (c : Connection P) (w : World tokio)
      → Deaf f
      → said f (packets (cancel_keys ks c w).1.history) ≡ said f (packets w.history)
  unfolding send
  cancel_keys-said [] c w d = unfold cancel_keys in refl
  cancel_keys-said (k ∷ ks) c w d =
      let left : Map ℕ (OneshotSender (Answer P)) = erase ℕ_discrete k c.reply_map in
      elim (Option-cases (get ℕ_discrete k c.reply_map)) [
        | inl e ↦
            rw (cancel_keys-skip k ks c w e)
              (cancel_keys-said ks (record c { reply_map = left }) w d)
        | inr (tx, e) ↦ rw (cancel_keys-cons k tx left ks c w e refl) (
            cancel_keys-said ks (record c { reply_map = left })
              (send (answer tx (err RequestError.canceled)) w).1 d
            ∙ unheard f _ (packets w.history) (d.to_answers tx _))
      ]

  -- The end of `run` says nothing to `f`.
  pub finish-said :
      (c : Connection P) (w : World tokio)
      → Deaf f
      → said f (packets (finish c w).1.history) ≡ said f (packets w.history)
  unfolding finish cancel_requests ask close send
  finish-said c w d =
      let w' : World tokio = (close c w).1 in
      let (entries, env') = tokio.traverse c.reply_map w'.env in
      let told = to_receiver c.receiver_hdl.tx ReceiverMessage.close in
      unheard f _ (packets (cancel_keys (keys entries) c (record w' { env = env' })).1.history)
        (d.to_owners _)
      ∙ cancel_keys-said (keys entries) c (record w' { env = env' }) d
      ∙ unheard f _ (told ∷ packets w.history) (d.to_senders _)
      ∙ unheard f told (packets w.history) (d.to_receivers _ _)
