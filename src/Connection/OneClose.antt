-- ===== src/Connection/OneClose.antt =====
-- src/connection.rs: `run` tells the receiver to close once, so its channel has room for that.
use rrev.Prelude.{ℕ, ◌≡◌, refl, ap, ◌∙◌, Bool, true, false, none}
use rrev.Scheme.{Parser}
use rrev.Connection.Waiting.{
  Tasks, ConnectionAt, Work, works, Step, Steps, user_sends, owner_takes, owner_replies,
  takes_external, takes_internal, sends, send_fails, tells, tell_fails, closes_receiver,
  receiver_gone, closes_sender, sender_gone, tells_end, tell_end_fails, sender_writes, sender_skips,
  Answer, answers, write_ends, write_fails, close_ends, sender_reports, report_fails, sender_closes,
  receiver_reads, receiver_reports, receiver_report_fails, receiver_closes, rest, more,
}
use rrev.Connection.Settling.{Works, done, and_then, and_ends}

module _ {P : Parser} where
  -- Whether the connection has not told its receiver to close.
  abbrev pub early : ConnectionAt P → Bool
  early (ConnectionAt.selecting _) = true
  early (ConnectionAt.sending _ _) = true
  early (ConnectionAt.telling _ _) = true
  early (ConnectionAt.closing_receiver _) = true
  early _ = false

  -- If the connection has not told the receiver to close, there is no message for it.
  pub record Untold (n : Tasks P) : Type 0 where
    pub has_room : early n.connection ≡ true → n.for_receiver ≡ none

  -- A step from where the receiver is not told, which leaves its channel as it is.
  untold :
      {n o : Tasks P}
      → early n.connection ≡ true
      → n.for_receiver ≡ o.for_receiver
      → Untold n
      → Untold o
  untold h p u = record { has_room = λ _. cc (p, u.has_room h) }

  -- A step that leaves the connection and the receiver's channel as they are.
  pub unmoved :
      {n o : Tasks P}
      → n.connection ≡ o.connection
      → n.for_receiver ≡ o.for_receiver
      → Untold n
      → Untold o
  unmoved q p u = record { has_room = λ h. cc (p, u.has_room (ap early q ∙ h)) }

  -- A step after which the receiver is told.
  told : {n : Tasks P} → early n.connection ≡ false → Untold n
  told q = record { has_room = λ h. cc (q, h) }

  Work-Untold : {n o : Tasks P} → Work n o → Untold n → Untold o
  Work-Untold (takes_external n c m h _) u = untold (ap early h) refl u
  Work-Untold (takes_internal n c m h _) u = untold (ap early h) refl u
  Work-Untold (sends n _ _ h _) u = untold (ap early h) refl u
  Work-Untold (send_fails n _ _ h _) u = untold (ap early h) refl u
  Work-Untold (tells n _ _ h _) u = untold (ap early h) refl u
  Work-Untold (closes_receiver n _ h _) u = told refl
  Work-Untold (receiver_gone n _ h _) u = told refl
  Work-Untold (closes_sender n _ h _) u = told refl
  Work-Untold (sender_gone n _ h _) u = told refl
  Work-Untold (tells_end n _ h _) u = told refl
  Work-Untold (sender_writes n _ _ _) u = unmoved refl refl u
  Work-Untold (sender_skips n _ _ _) u = unmoved refl refl u
  Work-Untold (sender_reports n _ _) u = unmoved refl refl u
  Work-Untold (report_fails n _ _) u = unmoved refl refl u
  Work-Untold (sender_closes n _ _) u = unmoved refl refl u
  Work-Untold (receiver_reports n _ _ _) u = unmoved refl refl u
  Work-Untold (receiver_report_fails n _ _ _) u = unmoved refl refl u
  Work-Untold (receiver_closes n _ _) u = record { has_room = λ _. refl }

  Answer-Untold : {n o : Tasks P} → Answer n o → Untold n → Untold o
  Answer-Untold (write_ends n _) u = unmoved refl refl u
  Answer-Untold (write_fails n _) u = unmoved refl refl u
  Answer-Untold (close_ends n _) u = unmoved refl refl u

  pub Step-Untold : {n o : Tasks P} → Step n o → Untold n → Untold o
  Step-Untold (works s) u = Work-Untold s u
  Step-Untold (answers s) u = Answer-Untold s u
  Step-Untold (user_sends n _ _) u = unmoved refl refl u
  Step-Untold (owner_takes n _ _) u = unmoved refl refl u
  Step-Untold (owner_replies n _ _) u = unmoved refl refl u
  Step-Untold (tell_fails n _ _ h) u = untold (ap early h) refl u
  Step-Untold (tell_end_fails n _ h) u = told refl
  Step-Untold (receiver_reads n _ _) u = unmoved refl refl u

  pub Steps-Untold : {n o : Tasks P} → Steps n o → Untold n → Untold o
  Steps-Untold (rest n) u = u
  Steps-Untold (more a b d s ss) u = Steps-Untold ss (Step-Untold s u)

  pub Works-Untold : {k : ℕ} {n o : Tasks P} → Works k n o → Untold n → Untold o
  Works-Untold (done n) u = u
  Works-Untold (and_then s ss) u = Works-Untold ss (Work-Untold s u)
  Works-Untold (and_ends s ss) u = Works-Untold ss (Answer-Untold s u)
