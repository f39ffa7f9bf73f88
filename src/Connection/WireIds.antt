-- ===== src/Connection/WireIds.antt =====
-- src/connection.rs: the ids of the requests that go to the sender's task, and when a turn ends
-- the loop.
use rrev.Prelude.{
  ℕ, zero, suc, ◌+◌, ◌-◌, ◌≤◌, ◌<◌, ◌≡◌, refl, sym, ap, ◌∙◌, List, [], ◌∷◌, ◌++◌, arith, length,
  inl, inr, ControlFlow-cases,
}
use mathlib.Core.List.{append_assoc}
use native.Mathlib.Nat.{add-zero, add-suc, add_assoc}
use rrev.Scheme.{Parser, Message, Reply}
use rrev.Runtime.{Tokio, World, Packet, to_sender, packets}
use rrev.Connection.Types.{Connection, ConnectionMessage, InternalMessage, SenderMessage}
use rrev.Connection.{Turn, external, internal, usize_mod, handle_turn, run_loop}
use rrev.Connection.Ledger.{
  WellFormed, HasRoom, asked, length-asked, handle_turn-next_id, handle_turn-WellFormed,
}
use rrev.Connection.Refinement.{emitted, handle_turn_refines}
use rrev.Connection.Loop.{run_loop-go_on, run_loop-stop}

-- The ids of the requests among the packets.
abbrev pub wire_ids : {P : Parser} → List (Packet P) → List ℕ
wire_ids [] = []
wire_ids (to_sender _ (SenderMessage.message (Message.request r)) ∷ ps) = r.id ∷ wire_ids ps
wire_ids (_ ∷ ps) = wire_ids ps

-- `n + k - 1`, …, `n + 1`, `n`
abbrev pub ids_down : ℕ → ℕ → List ℕ
ids_down n zero = []
ids_down n (suc k) = (n + k) ∷ ids_down n k

ids_down-append : (n k m : ℕ) → ids_down (n + k) m ++ ids_down n k ≡ ids_down n (k + m)
ids_down-append n k zero = rw add-zero
ids_down-append n k (suc m) = rw (add-suc k m) (rw (ids_down-append n k m, add_assoc n k m))

ids_down-join :
    (n k m : ℕ) {xs ys : List ℕ} (zs : List ℕ)
    → xs ≡ ids_down (n + k) m ++ ys
    → ys ≡ ids_down n k ++ zs
    → xs ≡ ids_down n (k + m) ++ zs
ids_down-join n k m zs p q =
    p
    ∙ ap (λ l. ids_down (n + k) m ++ l) q
    ∙ sym (append_assoc (ids_down (n + k) m) _ zs)
    ∙ ap (λ l. l ++ zs) (ids_down-append n k m)

wire_ids-append :
    {P : Parser} (ps qs : List (Packet P)) → wire_ids (ps ++ qs) ≡ wire_ids ps ++ wire_ids qs
wire_ids-append [] qs = refl
wire_ids-append (to_sender _ (SenderMessage.message (Message.request r)) ∷ ps) qs =
    ap (λ l. r.id ∷ l) (wire_ids-append ps qs)
wire_ids-append (to_sender _ (SenderMessage.message (Message.reply r)) ∷ ps) qs =
    wire_ids-append ps qs
wire_ids-append (_ ∷ ps) qs = wire_ids-append ps qs

answer_to-no_ids :
    {P : Parser} (c : Connection P) (r : Reply P.TheirReply)
    → wire_ids (emitted c (internal (InternalMessage.new_message (Message.reply r)))) ≡ []
answer_to-no_ids c r = ground arith

-- A turn puts an id on the wire if it takes a request, and it is the next id.
wire_ids-emitted :
    {P : Parser} (c : Connection P) (t : Turn P)
    → wire_ids (emitted c t) ≡ ids_down c.next_id (length (asked (t ∷ [])))
wire_ids-emitted c (external (ConnectionMessage.request q tx)) = ground arith
wire_ids-emitted c (external (ConnectionMessage.event e)) = refl
wire_ids-emitted c (internal (InternalMessage.new_message (Message.reply r))) = answer_to-no_ids c r
wire_ids-emitted c (internal (InternalMessage.new_message (Message.event e))) = refl
wire_ids-emitted c _ = refl

module _ {P : Parser} {tokio : Tokio P} where
  asked_unread-le :
      (ts : List (Turn P)) (c : Connection P) (w : World tokio)
      → length (asked (run_loop c ts w).0.unread) ≤ length (asked ts)
  asked_unread-le [] c w = unfold run_loop in omega arith
  asked_unread-le (t ∷ ts) c w = elim (ControlFlow-cases (handle_turn c t w).0.1) [
    | inl e ↦ rw (run_loop-go_on c t ts w e) (
        omega (
          arith,
          length-asked t ts,
          asked_unread-le ts (handle_turn c t w).0.0 (handle_turn c t w).1,
        ))
    | inr e ↦ rw (run_loop-stop c t ts w e) (omega (arith, length-asked t ts))
  ]

  -- The requests that the loop of a well-formed connection passes on get the ids from `next_id` on,
  -- each once and in order, as long as ids do not run out.
  pub run_loop_ids :
      (ts : List (Turn P)) (c : Connection P) (w : World tokio)
      → c.next_id + length (asked ts) < usize_mod
      → WellFormed c
      → let (p, w') = run_loop c ts w in
        wire_ids (packets w'.history)
        ≡ ids_down c.next_id (length (asked ts) - length (asked p.unread))
          ++ wire_ids (packets w.history)
  run_loop_ids [] c w room v = unfold run_loop in refl
  run_loop_ids (t ∷ ts) c w room v =
      let fits : HasRoom c t = omega (arith, length-asked t ts) in
      let issued = handle_turn-next_id c w t fits in
      let c' : Connection P = (handle_turn c t w).0.0 in
      let w' : World tokio = (handle_turn c t w).1 in
      let one : wire_ids (packets w'.history)
          ≡ ids_down c.next_id (length (asked (t ∷ []))) ++ wire_ids (packets w.history) =
        ap wire_ids (handle_turn_refines c t w fits v).1
        ∙ wire_ids-append (emitted c t) (packets w.history)
        ∙ ap (λ l. l ++ wire_ids (packets w.history)) (wire_ids-emitted c t) in
      elim (ControlFlow-cases (handle_turn c t w).0.1) [
        | inl e ↦
            let unread : ℕ = length (asked (run_loop c' ts w').0.unread) in
            let fewer : length (asked (t ∷ ts)) - unread
                ≡ length (asked (t ∷ [])) + (length (asked ts) - unread) =
              omega (arith, length-asked t ts, asked_unread-le ts c' w') in
            rw (run_loop-go_on c t ts w e, fewer)
              (ids_down-join c.next_id (length (asked (t ∷ []))) (length (asked ts) - unread) _
                (rw issued at (
                  run_loop_ids ts c' w' (omega (arith, length-asked t ts, issued))
                    (handle_turn-WellFormed c w t fits v)))
                one)
        | inr e ↦
            let fewer : length (asked (t ∷ ts)) - length (asked ts) ≡ length (asked (t ∷ [])) =
              omega (arith, length-asked t ts) in
            rw (run_loop-stop c t ts w e, fewer) one
      ]
