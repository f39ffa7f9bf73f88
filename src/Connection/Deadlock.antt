-- ===== src/Connection/Deadlock.antt =====
-- src/connection.rs and src/connection/sender.rs: a connection and its sender that wait for each
-- other, and how the steps of the tasks agree with the handlers.
use rrev.Prelude.{
  ◌≡◌, refl, ℕ, ℕ_discrete, Bool, true, none, some, List, [], ◌∷◌, ◌++◌, map, ControlFlow, go_on,
  stop, if◌then◌else◌, inl, inr, Option-cases, arith,
}
use rrev.Prelude.Map.{get}
use rrev.Scheme.{Parser, Message, OurMessage}
use rrev.Runtime.{Tokio, World, Entry, sent, send, Packet, answer, to_owner, to_sender}
use rrev.Connection.Types.{
  Connection, ConnectionMessage, ConnectionEvent, InternalMessage, SenderMessage,
}
use rrev.Connection.{Turn, external, internal, handle_turn}
use rrev.Connection.RequestHandle as RequestHandle
use rrev.Connection.Waiting.{
  Tasks, ConnectionAt, SenderAt, ReceiverAt, pause, Work, works, Step, Steps, user_sends,
  owner_takes, owner_replies, takes_external, takes_internal, sends, send_fails, tells, tell_fails,
  closes_receiver, receiver_gone, closes_sender, sender_gone, tells_end, tell_end_fails,
  sender_writes, sender_skips, Answer, answers, write_ends, write_fails, close_ends, sender_reports,
  report_fails, sender_closes, receiver_reads, receiver_reports, receiver_report_fails,
  receiver_closes, rest, more,
}

module _ {P : Parser} where
  -- The message that the connection waits to send.
  abbrev pub awaited : ConnectionAt P → List (Packet P)
  awaited (ConnectionAt.sending c m) = to_sender c.sender_hdl.tx (SenderMessage.message m) ∷ []
  awaited (ConnectionAt.telling c e) = to_owner c.event_tx e ∷ []
  awaited _ = []

  -- What was done but on oneshots, where a send does not wait.
  abbrev pub bounded : List (Entry P) → List (Entry P)
  bounded [] = []
  bounded (sent (answer _ _) _ ∷ h) = bounded h
  bounded (x ∷ h) = x ∷ bounded h

  -- The state and the way on after the wait; `b` says whether the message was sent.
  abbrev pub After : ConnectionAt P → Bool → Connection P × ControlFlow → Type 0
  After (ConnectionAt.selecting c) b r = r ≡ (c, go_on)
  After (ConnectionAt.sending c m) b r = r ≡ (c, if b then go_on else stop)
  After (ConnectionAt.telling c e) b r = r ≡ (c, if b then go_on else stop)
  After (ConnectionAt.closing_receiver c) b r = r ≡ (c, stop)
  After _ b r = ⊥

  -- All tasks wait for messages, and no channel holds one.
  abbrev pub fresh : Connection P → Tasks P
  fresh c = record {
    connection = ConnectionAt.selecting c;
    sender = SenderAt.receiving;
    receiver = ReceiverAt.reading;
    user = none;
    owner = none;
    inside = none;
    for_sender = none;
    for_receiver = none;
  }

  -- The connection waits to send `m` to the sender, whose channel holds `x`, and the sender waits to
  -- report to the connection, whose internal channel holds `y`.
  pub record Locked (c : Connection P) (m : OurMessage P) (x : SenderMessage P)
      (y : InternalMessage P) (n : Tasks P) : Type 0 where
    pub sends_on : n.connection ≡ ConnectionAt.sending c m
    pub sender_full : n.for_sender ≡ some x
    pub reports : n.sender ≡ SenderAt.reporting
    pub inside_full : n.inside ≡ some y

module _ {P : Parser} {tokio : Tokio P} where
  -- For every message, `pause` says where its handler waits: what the handler does, but on
  -- oneshots, is to send the message that it waits to send there, and after that, with an outcome
  -- `b`, the state and the way on are those that the steps give: the loop goes on after a message
  -- that was sent and where nothing is to be sent, and ends after one that was not, and at a
  -- close.
  pub pause-handle_turn :
      (c : Connection P) (t : Turn P) (w : World tokio)
      → (b : Bool) × After (pause c t) b (handle_turn c t w).0
        × (bounded (handle_turn c t w).1.history
            ≡ map (λ p. sent p b) (awaited (pause c t)) ++ bounded w.history)
  unfolding handle_turn pause
  pause-handle_turn c (internal (InternalMessage.new_message (Message.reply r))) w =
      (true, ground arith, ground arith)
  pause-handle_turn c (external (ConnectionMessage.request q tx)) w =
      let id : ℕ = c.next_id in
      let p : Packet P =
        to_sender c.sender_hdl.tx
          (SenderMessage.message (Message.request (record { id = id; payload = q }))) in
      elim (Option-cases (get ℕ_discrete c.next_id c.reply_map)) [
        | inl e ↦ ((send p w).0, ground arith, ground arith)
        | inr (old, e) ↦ (true, ground arith, ground arith)
      ]
  pause-handle_turn c (external (ConnectionMessage.event e)) w = (
    (send (to_sender c.sender_hdl.tx (SenderMessage.message (Message.event e))) w).0,
    ground arith,
    ground arith,
  )
  pause-handle_turn c (internal (InternalMessage.new_message (Message.event e))) w =
      ((send (to_owner c.event_tx (ConnectionEvent.event_message e)) w).0, refl, refl)
  pause-handle_turn c (internal (InternalMessage.new_message (Message.request r))) w = (
    (send (to_owner c.event_tx (ConnectionEvent.request_message (RequestHandle.new r c.sender_hdl)))
        w).0,
    refl,
    refl,
  )
  pause-handle_turn c (external ConnectionMessage.close) w = (true, refl, refl)
  pause-handle_turn c (internal InternalMessage.close) w = (true, refl, refl)

module _ {P : Parser} {c : Connection P} {m : OurMessage P} {x : SenderMessage P}
    {y : InternalMessage P} where
  same :
      {n o : Tasks P}
      → n.connection ≡ o.connection
      → n.for_sender ≡ o.for_sender
      → n.sender ≡ o.sender
      → n.inside ≡ o.inside
      → Locked c m x y n
      → Locked c m x y o
  same p q r s l = record {
    sends_on = cc (p, l.sends_on);
    sender_full = cc (q, l.sender_full);
    reports = cc (r, l.reports);
    inside_full = cc (s, l.inside_full);
  }

  Work-Locked : {n o : Tasks P} → Work n o → Locked c m x y n → Locked c m x y o
  Work-Locked (takes_external n _ _ h _) l = cc (h, l.sends_on)
  Work-Locked (takes_internal n _ _ h _) l = cc (h, l.sends_on)
  Work-Locked (sends n _ _ _ h) l = cc (h, l.sender_full)
  Work-Locked (send_fails n _ _ _ h) l = cc (h, l.reports)
  Work-Locked (tells n _ _ h _) l = cc (h, l.sends_on)
  Work-Locked (closes_receiver n _ h _) l = cc (h, l.sends_on)
  Work-Locked (receiver_gone n _ h _) l = cc (h, l.sends_on)
  Work-Locked (closes_sender n _ h _) l = cc (h, l.sends_on)
  Work-Locked (sender_gone n _ h _) l = cc (h, l.sends_on)
  Work-Locked (tells_end n _ h _) l = cc (h, l.sends_on)
  Work-Locked (sender_writes n _ h _) l = cc (h, l.reports)
  Work-Locked (sender_skips n _ h _) l = cc (h, l.reports)
  Work-Locked (sender_reports n _ h) l = cc (h, l.inside_full)
  Work-Locked (report_fails n _ h) l = cc (h, l.sends_on)
  Work-Locked (sender_closes n h _) l = cc (h, l.reports)
  Work-Locked (receiver_reports n _ _ h) l = cc (h, l.inside_full)
  Work-Locked (receiver_report_fails n _ _ h) l = cc (h, l.sends_on)
  Work-Locked (receiver_closes n _ _) l = same refl refl refl refl l

  Answer-Locked : {n o : Tasks P} → Answer n o → Locked c m x y n → Locked c m x y o
  Answer-Locked (write_ends n h) l = cc (h, l.reports)
  Answer-Locked (write_fails n h) l = cc (h, l.reports)
  Answer-Locked (close_ends n h) l = cc (h, l.reports)

  Step-Locked : {n o : Tasks P} → Step n o → Locked c m x y n → Locked c m x y o
  Step-Locked (works s) l = Work-Locked s l
  Step-Locked (answers s) l = Answer-Locked s l
  Step-Locked (user_sends n _ _) l = same refl refl refl refl l
  Step-Locked (owner_takes n _ _) l = same refl refl refl refl l
  Step-Locked (tell_fails n _ _ h) l = cc (h, l.sends_on)
  Step-Locked (tell_end_fails n _ h) l = cc (h, l.sends_on)
  Step-Locked (owner_replies n _ h) l = cc (h, l.sender_full)
  Step-Locked (receiver_reads n _ _) l = same refl refl refl refl l

  Steps-Locked : {n o : Tasks P} → Steps n o → Locked c m x y n → Locked c m x y o
  Steps-Locked (rest n) l = l
  Steps-Locked (more a b d s ss) l = Steps-Locked ss (Step-Locked s l)

abbrev pub event_packet : {P : Parser} → P.OurEvent → SenderMessage P
event_packet e = SenderMessage.message (Message.event e)

-- Where the tasks end up: the event `b` is in the sender's channel, and `d` is to follow.
abbrev pub locked : {P : Parser} → Connection P → (b d : P.OurEvent) → Tasks P
locked c b d = record {
  connection = ConnectionAt.sending c (Message.event d);
  sender = SenderAt.reporting;
  receiver = ReceiverAt.ended;
  user = none;
  owner = none;
  inside = some InternalMessage.close;
  for_sender = some (event_packet b);
  for_receiver = none;
}

module _ {P : Parser} (c : Connection P) (a b d : P.OurEvent) where
  -- Three events, the first of which is written to a websocket that is lost.
  way_to_locked : Steps (fresh c) (locked c b d)
  unfolding pause
  way_to_locked = more _ _ _ (user_sends _ (ConnectionMessage.event a) refl) (
      more _ _ _ (works (takes_external _ c (ConnectionMessage.event a) refl refl)) (
        more _ _ _ (works (sends _ c (Message.event a) refl refl)) (
          more _ _ _ (works (sender_writes _ (Message.event a) refl refl)) (
            more _ _ _ (answers (write_fails _ refl)) (
              more _ _ _ (receiver_reads _ InternalMessage.close refl) (
                more _ _ _ (works (receiver_reports _ InternalMessage.close refl refl)) (
                  more _ _ _ (user_sends _ (ConnectionMessage.event b) refl) (
                    more _ _ _ (works (takes_external _ c (ConnectionMessage.event b) refl refl)) (
                      more _ _ _ (works (sends _ c (Message.event b) refl refl)) (
                        more _ _ _ (user_sends _ (ConnectionMessage.event d) refl) (
                          more _ _ _
                            (works (takes_external _ c (ConnectionMessage.event d) refl refl))
                            (rest _))))))))))))

  -- When the websocket is lost, three events from the user can bring the tasks of a connection from
  -- the start to where the connection waits to send the third one to its sender and the sender waits
  -- to report the loss to the connection; and wherever the tasks and the owner go from there, both
  -- still wait.
  pub deadlock :
      (o : Tasks P)
      → Steps (locked c b d) o
      → Steps (fresh c) (locked c b d)
        × Locked c (Message.event d) (event_packet b) InternalMessage.close o
  deadlock o ss = (
    way_to_locked,
    Steps-Locked ss
        (record { sends_on = refl; sender_full = refl; reports = refl; inside_full = refl }),
  )
