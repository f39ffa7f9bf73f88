-- ===== src/Connection/Closing.antt =====
-- src/connection.rs: what a connection does after its loop, `close`, `cancel_requests` and the last
-- event.
use rrev.Prelude.{
  ℕ, ◌+◌, ◌≡◌, refl, none, some, List, [], ◌∷◌, ◌++◌, ℕ_discrete, err, arith, count, sym, ap, ◌∙◌,
}
use rrev.Prelude.Map.{
  Map, get, erase, keys, Distinct, get_head, get-erase, erase-Distinct, SameEntries,
}
use mathlib.Core.List.{append_assoc}
use rrev.Channel.{OneshotSender}
use rrev.Scheme.{Parser}
use rrev.Error.{RequestError}
use rrev.Runtime.{
  Tokio, World, Packet, Traverses, send, ask, answer, to_owner, to_sender, to_receiver, packets,
}
use rrev.Connection.Types.{Answer, Connection, ConnectionEvent, SenderMessage, ReceiverMessage}
use rrev.Connection.{close, cancel_keys, cancel_requests, finish}
use rrev.Connection.Ledger.{answered, waiting, waiting-erase}

-- A map that has nothing under any key is empty.
no_entries : {V : Type 0} (m : Map ℕ V) → ((k : ℕ) → none ≡ get ℕ_discrete k m) → m ≡ []
no_entries [] none_at = refl
no_entries ((k, v) ∷ m) none_at = cc (none_at k, get_head ℕ_discrete k v m)

-- What is left of the entries is left of the map.
tail_entries :
    {V : Type 0} (k : ℕ) (v : V) (rest m : Map ℕ V)
    → SameEntries ℕ_discrete ((k, v) ∷ rest) m
    → SameEntries ℕ_discrete rest (erase ℕ_discrete k m)
unfolding get
tail_entries k v rest m same = record {
  distinct = same.distinct.1;
  agree = λ j. ground (arith, get-erase ℕ_discrete j k m, same.agree j, same.distinct.0);
}

module _ {P : Parser} where
  -- One cancellation for each waiting oneshot, the last sent first.
  abbrev pub cancellations : Map ℕ (OneshotSender (Answer P)) → List (Packet P)
  cancellations [] = []
  cancellations ((_, tx) ∷ m) = cancellations m ++ answer tx (err RequestError.canceled) ∷ []

module _ {P : Parser} {tokio : Tokio P} where
  pub cancel_keys-cons :
      (k : ℕ) (tx : OneshotSender (Answer P)) (m : Map ℕ (OneshotSender (Answer P))) (ks : List ℕ)
      (c : Connection P) (w : World tokio)
      → get ℕ_discrete k c.reply_map ≡ some tx
      → erase ℕ_discrete k c.reply_map ≡ m
      → cancel_keys (k ∷ ks) c w
        ≡ cancel_keys ks
            (record c { reply_map = m })
            (send (answer tx (err RequestError.canceled)) w).1
  unfolding cancel_keys
  cancel_keys-cons k tx m ks c w g e = ground arith

  -- `entries` are the entries of the reply map in any order.
  pub cancel_keys_lem :
      (entries : Map ℕ (OneshotSender (Answer P))) (c : Connection P) (w : World tokio)
      → SameEntries ℕ_discrete entries c.reply_map
      → Distinct ℕ_discrete c.reply_map
      → let (c', w') = cancel_keys (keys entries) c w in
        (c' ≡ record c { reply_map = [] })
        × (packets w'.history ≡ cancellations entries ++ packets w.history)
        × ((a : ℕ)
            → count a (answered w'.history)
              ≡ count a (waiting c.reply_map) + count a (answered w.history))
  unfolding send count
  cancel_keys_lem [] c w same d =
      let empty : c.reply_map ≡ [] = no_entries c.reply_map (unfold get in same.agree) in
      unfold cancel_keys in rw empty (ground arith, refl, λ a. omega arith)
  cancel_keys_lem ((k, tx) ∷ rest) c w same d =
      let w' : World tokio = (send (answer tx (err RequestError.canceled)) w).1 in
      let left : Map ℕ (OneshotSender (Answer P)) = erase ℕ_discrete k c.reply_map in
      let found : get ℕ_discrete k c.reply_map ≡ some tx =
        sym (same.agree k) ∙ get_head ℕ_discrete k tx rest in
      let ih =
        cancel_keys_lem rest (record c { reply_map = left }) w'
          (tail_entries k tx rest c.reply_map same) (erase-Distinct ℕ_discrete k c.reply_map d) in
      rw (cancel_keys-cons k tx left (keys rest) c w found refl) (
        ih.0,
        ih.1 ∙ sym (append_assoc (cancellations rest) _ _),
        λ a. omega (arith, ih.2 a, waiting-erase a k c.reply_map tx d found),
      )

  -- After the loop both halves are told to close, then every waiting request is canceled on its
  -- oneshot, in some order, and the owner hears of the end last; the reply map is empty then, and
  -- each waiting oneshot is answered once. Ids are distinct in the reply map, and a traversal of
  -- a map meets each entry once.
  pub finish_lem :
      (c : Connection P) (w : World tokio)
      → Traverses tokio
      → Distinct ℕ_discrete c.reply_map
      → let (c', w') = finish c w in
        (c' ≡ record c { reply_map = [] })
        × ((entries : Map ℕ (OneshotSender (Answer P))) × SameEntries ℕ_discrete entries c.reply_map
            × (packets w'.history
                ≡ to_owner c.event_tx ConnectionEvent.close ∷ cancellations entries
                  ++ to_sender c.sender_hdl.tx SenderMessage.close
                    ∷ to_receiver c.receiver_hdl.tx ReceiverMessage.close
                    ∷ packets w.history))
        × ((a : ℕ)
            → count a (answered w'.history)
              ≡ count a (waiting c.reply_map) + count a (answered w.history))
  unfolding finish cancel_requests ask
  finish_lem c w all d =
      let w' : World tokio = (close c w).1 in
      let (entries, env') = tokio.traverse c.reply_map w'.env in
      let same = all.each_once ℕ_discrete c.reply_map w'.env d in
      let r = cancel_keys_lem entries c (record w' { env = env' }) same d in
      (r.0, (entries, same, cc (ap (λ (x : Connection P). x.event_tx) r.0, r.1)), r.2)
