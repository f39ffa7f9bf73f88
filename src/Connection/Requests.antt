-- ===== src/Connection/Requests.antt =====
-- src/connection.rs: how a reply finds its request, and which ids go over the wire.
use rrev.Prelude.{
  ℕ, ◌≡◌, ◌≢◌, none, some, List, [], ◌∷◌, ℕ_discrete, ok, go_on, arith, inl, inr, ControlFlow-cases,
}
use rrev.Prelude.Map.{get, get-erase, get-insert}
use rrev.Channel.{OneshotSender}
use rrev.Scheme.{Parser, Message}
use rrev.Runtime.{Tokio, World, answer, packets}
use rrev.Connection.Types.{Answer, Connection, ConnectionMessage, InternalMessage}
use rrev.Connection.{Turn, external, internal, handle_turn, run_loop}
use rrev.Connection.Loop.{run_loop-go_on, run_loop-stop}

abbrev pub reply_turn : {P : Parser} → ℕ → P.TheirReply → Turn P
reply_turn n payload =
    internal (InternalMessage.new_message (Message.reply (record { id = n; payload = payload })))

-- No reply to `n` is among the messages.
abbrev pub NoReplyTo : {P : Parser} → ℕ → List (Turn P) → Type 0
NoReplyTo n [] = Unit {0}
NoReplyTo n (internal (InternalMessage.new_message (Message.reply r)) ∷ ts) =
    (r.id ≢ n) × NoReplyTo n ts
NoReplyTo n (_ ∷ ts) = NoReplyTo n ts

NoReplyTo-cons :
    {P : Parser} (n : ℕ) (t : Turn P) (ts : List (Turn P))
    → NoReplyTo n (t ∷ ts)
    → NoReplyTo n (t ∷ []) × NoReplyTo n ts
NoReplyTo-cons n (internal (InternalMessage.new_message (Message.reply r))) ts h = ((h.0, tt), h.1)
NoReplyTo-cons n (internal (InternalMessage.new_message (Message.event _))) ts h = (tt, h)
NoReplyTo-cons n _ ts h = (tt, h)

module _ {P : Parser} {tokio : Tokio P} where
  get-handle_turn :
      (n : ℕ) (tx : OneshotSender (Answer P)) (c : Connection P) (t : Turn P) (w : World tokio)
      → NoReplyTo n (t ∷ [])
      → get ℕ_discrete n c.reply_map ≡ some tx
      → get ℕ_discrete n (handle_turn c t w).0.0.reply_map ≡ some tx
  unfolding handle_turn
  get-handle_turn n tx c (external (ConnectionMessage.request q tx')) w h e =
      ground (arith, get-insert ℕ_discrete n c.next_id tx' c.reply_map)
  get-handle_turn n tx c (internal (InternalMessage.new_message (Message.reply r))) w h e =
      ground (arith, h.0, get-erase ℕ_discrete n r.id c.reply_map)
  get-handle_turn n tx c _ w h e = e

  -- However many requests come, and where ids wrap around, a waiting request is not overwritten:
  -- it waits under its id until a reply to that id comes.
  pub never_overwritten :
      (n : ℕ) (tx : OneshotSender (Answer P)) (ts : List (Turn P)) (c : Connection P)
      (w : World tokio)
      → NoReplyTo n ts
      → get ℕ_discrete n c.reply_map ≡ some tx
      → get ℕ_discrete n (run_loop c ts w).0.state.reply_map ≡ some tx
  never_overwritten n tx [] c w h e = unfold run_loop in e
  never_overwritten n tx (t ∷ ts) c w h e =
      let (now, later) = NoReplyTo-cons n t ts h in
      let one = get-handle_turn n tx c t w now e in
      elim (ControlFlow-cases (handle_turn c t w).0.1) [
        | inl g ↦
            rw (run_loop-go_on c t ts w g)
              (never_overwritten n tx ts (handle_turn c t w).0.0 (handle_turn c t w).1 later one)
        | inr g ↦ rw (run_loop-stop c t ts w g) one
      ]

  request_waits :
      (c : Connection P) (q : P.OurRequest) (tx : OneshotSender (Answer P)) (w : World tokio)
      → get ℕ_discrete c.next_id c.reply_map ≡ none
      → get ℕ_discrete c.next_id
          (handle_turn c (external (ConnectionMessage.request q tx)) w).0.0.reply_map
        ≡ some tx
  unfolding handle_turn
  request_waits c q tx w free =
      ground (arith, free, get-insert ℕ_discrete c.next_id c.next_id tx c.reply_map)

  reply_found :
      (c : Connection P) (n : ℕ) (tx : OneshotSender (Answer P)) (payload : P.TheirReply)
      (w : World tokio)
      → get ℕ_discrete n c.reply_map ≡ some tx
      → let ((c', flow), w') = handle_turn c (reply_turn n payload) w in
        (packets w'.history ≡ answer tx (ok payload) ∷ packets w.history)
        × (get ℕ_discrete n c'.reply_map ≡ none)
        × (flow ≡ go_on)
  unfolding handle_turn
  reply_found c n tx payload w e =
      (ground arith, ground (arith, get-erase ℕ_discrete n n c.reply_map), ground arith)

  -- A reply with the id of a request goes to the oneshot of that request and takes the request out
  -- of the reply map, whatever came between them but a reply with the same id, if the id was free
  -- and the connection is still running. Ids may have wrapped around.
  pub reply_reaches_request :
      (c : Connection P) (q : P.OurRequest) (tx : OneshotSender (Answer P)) (ts : List (Turn P))
      (payload : P.TheirReply) (w : World tokio)
      → get ℕ_discrete c.next_id c.reply_map ≡ none
      → NoReplyTo c.next_id ts
      → (run_loop c (external (ConnectionMessage.request q tx) ∷ ts) w).0.flow ≡ go_on
      → let (p, w') = run_loop c (external (ConnectionMessage.request q tx) ∷ ts) w in
        let ((c'', flow), w'') = handle_turn p.state (reply_turn c.next_id payload) w' in
        (packets w''.history ≡ answer tx (ok payload) ∷ packets w'.history)
        × (get ℕ_discrete c.next_id c''.reply_map ≡ none)
        × (flow ≡ go_on)
  reply_reaches_request c q tx ts payload w free h e =
      let t : Turn P = external (ConnectionMessage.request q tx) in
      let (p, w') = run_loop c (t ∷ ts) w in
      let waits = request_waits c q tx w free in
      reply_found p.state c.next_id tx payload w'
        (elim (ControlFlow-cases (handle_turn c t w).0.1) [
          | inl g ↦ rw (run_loop-go_on c t ts w g) (
              never_overwritten c.next_id tx ts (handle_turn c t w).0.0 (handle_turn c t w).1 h
                waits)
          | inr g ↦ rw (run_loop-stop c t ts w g) waits
        ])
