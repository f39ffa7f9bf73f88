-- ===== src/Connection/Ledger.antt =====
-- src/connection.rs: the oneshots of the requests. Where each one is, from the message that brings
-- it to the answer that goes out on it.
use rrev.Prelude.{
  ℕ, ◌+◌, ◌≤◌, ◌<◌, ◌≡◌, refl, none, some, List, [], ◌∷◌, ◌++◌, ℕ_discrete, arith, count,
  count-append, length-append, inl, inr, Option-cases, length,
}
use rrev.Prelude.Map.{
  Map, get, erase, Distinct, get-erase, get-insert, erase-none, erase-Distinct, insert-Distinct,
}
use rrev.Channel.{OneshotSender}
use rrev.Scheme.{Parser, Message}
use rrev.Runtime.{Tokio, World, Entry, sent, answer}
use rrev.Connection.Types.{Connection, ConnectionMessage, InternalMessage}
use rrev.Connection.{Turn, external, internal, usize_mod, handle_turn, run_loop}

-- The oneshots in the reply map.
abbrev pub waiting : {A : Type 0} → Map ℕ (OneshotSender A) → List ℕ
waiting [] = []
waiting ((_, tx) ∷ m) = tx.slot ∷ waiting m

pub waiting-erase :
    {A : Type 0} (a k : ℕ) (m : Map ℕ (OneshotSender A)) (tx : OneshotSender A)
    → Distinct ℕ_discrete m
    → get ℕ_discrete k m ≡ some tx
    → count a (waiting (erase ℕ_discrete k m)) + count a (tx.slot ∷ []) ≡ count a (waiting m)
unfolding get erase count
waiting-erase a k [] tx d h = cc
waiting-erase a k ((i, t) ∷ m) tx d h =
    ground (arith, waiting-erase a k m tx d.1, erase-none ℕ_discrete k m)

module _ {P : Parser} where
  -- The oneshots that an answer was sent on, newest first; an answer that nobody takes counts too.
  abbrev pub answered : List (Entry P) → List ℕ
  answered [] = []
  answered (sent (answer tx _) _ ∷ h) = tx.slot ∷ answered h
  answered (_ ∷ h) = answered h

  -- The oneshots that come with requests of the user.
  abbrev pub asked : List (Turn P) → List ℕ
  asked [] = []
  asked (external (ConnectionMessage.request _ tx) ∷ ts) = tx.slot ∷ asked ts
  asked (_ ∷ ts) = asked ts

  -- Each id has one entry, and `next_id` is above them all.
  pub record WellFormed (c : Connection P) : Type 0 where
    pub distinct : Distinct ℕ_discrete c.reply_map
    pub bounded : (k : ℕ) → c.next_id ≤ k → get ℕ_discrete k c.reply_map ≡ none

-- The ids do not run out in this turn.
abbrev pub HasRoom : {P : Parser} → Connection P → Turn P → Type 0
HasRoom c t = c.next_id + length (asked (t ∷ [])) < usize_mod

module _ {P : Parser} {tokio : Tokio P} (c : Connection P) (w : World tokio) where
  -- A turn keeps the ids in the reply map distinct and below `next_id`, if there was a new id left.
  pub handle_turn-WellFormed :
      (t : Turn P) → HasRoom c t → WellFormed c → WellFormed (handle_turn c t w).0.0
  unfolding handle_turn
  handle_turn-WellFormed (external (ConnectionMessage.request q tx)) room v = record {
    distinct = ground (arith, insert-Distinct ℕ_discrete c.next_id tx c.reply_map);
    bounded = λ k le. ground (arith, v.bounded k, get-insert ℕ_discrete k c.next_id tx c.reply_map);
  }
  handle_turn-WellFormed (internal (InternalMessage.new_message (Message.reply r))) room v =
      record {
        distinct = ground (arith, erase-Distinct ℕ_discrete r.id c.reply_map);
        bounded = λ k le. ground (arith, v.bounded k, get-erase ℕ_discrete k r.id c.reply_map);
      }
  handle_turn-WellFormed _ room v = ground arith

  pub handle_turn-next_id :
      (t : Turn P)
      → HasRoom c t
      → (handle_turn c t w).0.0.next_id ≡ c.next_id + length (asked (t ∷ []))
  unfolding handle_turn
  handle_turn-next_id t room = ground arith

  pub handle_turn-count :
      (a : ℕ) (t : Turn P)
      → WellFormed c
      → count a (answered (handle_turn c t w).1.history)
          + count a (waiting (handle_turn c t w).0.0.reply_map)
        ≡ count a (answered w.history) + count a (waiting c.reply_map) + count a (asked (t ∷ []))
  unfolding handle_turn count
  handle_turn-count a (external (ConnectionMessage.request q tx)) v =
      ground (arith, v.bounded c.next_id, erase-none ℕ_discrete c.next_id c.reply_map)
  handle_turn-count a (internal (InternalMessage.new_message (Message.reply r))) v =
      elim (Option-cases (get ℕ_discrete r.id c.reply_map)) [
        | inl e ↦ ground (arith, erase-none ℕ_discrete r.id c.reply_map)
        | inr (tx, e) ↦ ground (arith, waiting-erase a r.id c.reply_map tx v.distinct e)
      ]
  handle_turn-count a _ v = ground arith

pub asked-cons :
    {P : Parser} (t : Turn P) (ts : List (Turn P)) → asked (t ∷ ts) ≡ asked (t ∷ []) ++ asked ts
asked-cons (external (ConnectionMessage.request _ tx)) ts = refl
asked-cons (external (ConnectionMessage.event _)) ts = refl
asked-cons _ ts = refl

pub length-asked :
    {P : Parser} (t : Turn P) (ts : List (Turn P))
    → length (asked (t ∷ ts)) ≡ length (asked (t ∷ [])) + length (asked ts)
length-asked t ts = rw (asked-cons t ts) (length-append (asked (t ∷ [])) (asked ts))

count-asked :
    {P : Parser} (a : ℕ) (t : Turn P) (ts : List (Turn P))
    → count a (asked (t ∷ ts)) ≡ count a (asked (t ∷ [])) + count a (asked ts)
count-asked a t ts = rw (asked-cons t ts) (count-append a (asked (t ∷ [])) (asked ts))

module _ {P : Parser} {tokio : Tokio P} where
  -- What the loop leaves: every oneshot that came in is answered, waiting, or not yet taken.
  pub run_loop-count :
      (a : ℕ) (ts : List (Turn P)) (c : Connection P) (w : World tokio)
      → c.next_id + length (asked ts) < usize_mod
      → WellFormed c
      → let (p, w') = run_loop c ts w in
        count a (answered w'.history)
          + count a (waiting p.state.reply_map)
          + count a (asked p.unread)
        ≡ count a (answered w.history) + count a (waiting c.reply_map) + count a (asked ts)
  unfolding run_loop
  run_loop-count a [] c w room v = refl
  run_loop-count a (t ∷ ts) c w room v =
      let (r, w') = handle_turn c t w in
      ground (
        arith,
        handle_turn-count c w a t v,
        handle_turn-next_id c w t (omega (arith, length-asked t ts)),
        handle_turn-WellFormed c w t (omega (arith, length-asked t ts)) v,
        count-asked a t ts,
        length-asked t ts,
        run_loop-count a ts r.0 w',
      )
