-- ===== src/Connection/Stuck.antt =====
-- src/connection.rs, src/connection/sender.rs and src/connection/receiver.rs: where the three tasks of
-- a connection stand when none of them can go on.
use rrev.Prelude.{ℕ, ◌≤◌, ◌≡◌, ◌≢◌, refl, ap, ◌⊎◌, inl, inr, none, Option-cases}
use rrev.Scheme.{Parser, OurMessage}
use rrev.Connection.Types.{Connection, ConnectionEvent, InternalMessage}
use rrev.Connection.Waiting.{
  Tasks, ConnectionAt, SenderAt, ReceiverAt, Steps, takes_external, takes_internal, sends,
  send_fails, tells, closes_receiver, closes_sender, sender_gone, tells_end, report_fails,
  receiver_report_fails,
}
use rrev.Connection.Deadlock.{fresh}
use rrev.Connection.Settling.{Works, Works-le}
use rrev.Connection.OneClose.{early, Untold, Steps-Untold, Works-Untold}
use rrev.Connection.Halves.{Goes, OnSocket, SenderWaits, ReceiverWaits, sender-Goes, receiver-Goes}

module _ {P : Parser} where
  -- The connection has ended, or it waits for a message; its halves have ended, or wait for messages.
  pub record Rests (n : Tasks P) : Type 0 where
    pub connection_rests :
        (n.connection ≡ ConnectionAt.ended)
        ⊎ ((c : Connection P) × (n.connection ≡ ConnectionAt.selecting c)
            × (n.user ≡ none)
            × (n.inside ≡ none))
    pub sender_rests : n.sender ≢ SenderAt.reporting
    pub receiver_rests : (m : InternalMessage P) → n.receiver ≢ ReceiverAt.reporting m

  -- The connection waits until its owner takes an event.
  pub record WaitsForOwner (n : Tasks P) : Type 0 where
    pub tells_owner :
        (c : Connection P) × (((e : ConnectionEvent P) × (n.connection ≡ ConnectionAt.telling c e))
          ⊎ (n.connection ≡ ConnectionAt.telling_end c))
    pub owner_full : n.owner ≢ none

  -- The connection waits to send to the sender, which waits to report to it; both channels are full.
  pub record Locks (n : Tasks P) : Type 0 where
    pub sends_on :
        (c : Connection P) × (((m : OurMessage P) × (n.connection ≡ ConnectionAt.sending c m))
          ⊎ (n.connection ≡ ConnectionAt.closing_sender c))
    pub sender_full : n.for_sender ≢ none
    pub reports : n.sender ≡ SenderAt.reporting
    pub inside_full : n.inside ≢ none

  abbrev pub Settled : Tasks P → Type 0
  Settled n = Rests n ⊎ (WaitsForOwner n ⊎ Locks n)

  quiet_sender : (n : Tasks P) → SenderWaits n → n.inside ≡ none → n.sender ≢ SenderAt.reporting
  quiet_sender n (inl h) i q = cc (h, q)
  quiet_sender n (inr (inl (h, e))) i q = cc (h, q)
  quiet_sender n (inr (inr (h, full))) i q = full i

  quiet_receiver :
      (n : Tasks P)
      → ReceiverWaits n
      → n.inside ≡ none
      → (m : InternalMessage P) → n.receiver ≢ ReceiverAt.reporting m
  quiet_receiver n (inl h) i m q = cc (h, q)
  quiet_receiver n (inr (inl (h, e))) i m q = cc (h, q)
  quiet_receiver n (inr (inr (x, h, full))) i m q = full i

  -- At its `select!` the connection goes on if a message is there.
  selecting-Goes :
      (n : Tasks P) (c : Connection P)
      → n.connection ≡ ConnectionAt.selecting c
      → SenderWaits n
      → ReceiverWaits n
      → Goes n ⊎ Settled n
  selecting-Goes n c h s r = elim (Option-cases n.user) [
    | inr (m, e) ↦ inl (_, takes_external n c m h e)
    | inl e ↦ elim (Option-cases n.inside) [
      | inr (m, i) ↦ inl (_, takes_internal n c m h i)
      | inl i ↦ inr (
          inl (record {
            connection_rests = inr (c, h, e, i);
            sender_rests = quiet_sender n s i;
            receiver_rests = quiet_receiver n r i;
          }))
    ]
  ]

  ended_rests :
      (n : Tasks P)
      → n.connection ≡ ConnectionAt.ended
      → n.sender ≢ SenderAt.reporting
      → ReceiverWaits n
      → Goes n ⊎ Settled n
  ended_rests n h s (inr (inr (m, r, full))) = inl (_, receiver_report_fails n m r h)
  ended_rests n h s (inl r) = inr (
      inl
        (record { connection_rests = inl h; sender_rests = s; receiver_rests = λ m q. cc (r, q) }))
  ended_rests n h s (inr (inl (r, e))) = inr (
      inl
        (record { connection_rests = inl h; sender_rests = s; receiver_rests = λ m q. cc (r, q) }))

  -- After the connection has ended a report fails, so its halves do not wait for one.
  ended-Goes :
      (n : Tasks P)
      → n.connection ≡ ConnectionAt.ended
      → SenderWaits n
      → ReceiverWaits n
      → Goes n ⊎ Settled n
  ended-Goes n h (inr (inr (s, full))) r = inl (_, report_fails n s h)
  ended-Goes n h (inl s) r = ended_rests n h (λ q. cc (s, q)) r
  ended-Goes n h (inr (inl (s, e))) r = ended_rests n h (λ q. cc (s, q)) r

  -- A send to the sender: `send` if its channel has room, `fail` if it has ended.
  sending-Goes :
      (n : Tasks P)
      → (n.for_sender ≡ none → Goes n)
      → (n.sender ≡ SenderAt.ended → Goes n)
      → (n.for_sender ≢ none → n.sender ≡ SenderAt.reporting → n.inside ≢ none → Locks n)
      → SenderWaits n
      → Goes n ⊎ Settled n
  sending-Goes n send fail lock (inl s) = inl (fail s)
  sending-Goes n send fail lock (inr (inl (s, e))) = inl (send e)
  sending-Goes n send fail lock (inr (inr (s, full))) = elim (Option-cases n.for_sender) [
    | inl e ↦ inl (send e)
    | inr (m, e) ↦ inr (inr (inr (lock (λ q. cc (q, e)) s full)))
  ]

  -- An event for the owner.
  telling-Goes :
      (n : Tasks P)
      → (n.owner ≡ none → Goes n)
      → (n.owner ≢ none → WaitsForOwner n)
      → Goes n ⊎ Settled n
  telling-Goes n tell wait = elim (Option-cases n.owner) [
    | inl e ↦ inl (tell e)
    | inr (x, e) ↦ inr (inr (inl (wait (λ q. cc (q, e)))))
  ]

  connection-Goes :
      (n : Tasks P)
      → Untold n
      → SenderWaits n
      → ReceiverWaits n
      → (a : ConnectionAt P) → n.connection ≡ a
      → Goes n ⊎ Settled n
  connection-Goes n u s r (ConnectionAt.selecting c) h = selecting-Goes n c h s r
  connection-Goes n u s r (ConnectionAt.sending c m) h =
      sending-Goes n (λ e. (_, sends n c m h e)) (λ e. (_, send_fails n c m h e))
        (λ p q i. record {
          sends_on = (c, inl (m, h));
          sender_full = p;
          reports = q;
          inside_full = i;
        })
        s
  connection-Goes n u s r (ConnectionAt.telling c e) h =
      telling-Goes n (λ q. (_, tells n c e h q))
        (λ q. record { tells_owner = (c, inl (e, h)); owner_full = q })
  connection-Goes n u s r (ConnectionAt.closing_receiver c) h =
      inl (_, closes_receiver n c h (u.has_room (ap early h)))
  connection-Goes n u s r (ConnectionAt.closing_sender c) h =
      sending-Goes n (λ e. (_, closes_sender n c h e)) (λ e. (_, sender_gone n c h e))
        (λ p q i. record { sends_on = (c, inr h); sender_full = p; reports = q; inside_full = i }) s
  connection-Goes n u s r (ConnectionAt.telling_end c) h =
      telling-Goes n (λ q. (_, tells_end n c h q))
        (λ q. record { tells_owner = (c, inr h); owner_full = q })
  connection-Goes n u s r ConnectionAt.ended h = ended-Goes n h s r

  -- Some task can take a step, or the sender waits for the websocket, or all wait for something else.
  pub Goes-or_Settled : (n : Tasks P) → Untold n → Goes n ⊎ (OnSocket n ⊎ Settled n)
  Goes-or_Settled n u = elim (sender-Goes n n.sender refl) [
    | inl g ↦ inl g
    | inr (inl w) ↦ inr (inl w)
    | inr (inr s) ↦ elim (receiver-Goes n n.receiver refl) [
      | inl g ↦ inl g
      | inr r ↦ elim (connection-Goes n u s r n.connection refl) [
        | inl g ↦ inl g
        | inr t ↦ inr (inr t)
      ]
    ]
  ]

  -- From any state that the tasks of a connection reach, they take at most 48 steps in a row, where
  -- the end of a write or a close of the websocket counts as a step too, without anything else from
  -- outside. Wherever none of them can take a step, the sender waits until the websocket lets a write
  -- or a close end; or they wait for messages or have ended; or the connection waits until its owner
  -- takes an event; or it waits to send to its sender, which waits to report to it, with both channels
  -- full.
  pub Works-Settled :
      (c : Connection P) {k : ℕ} {n o : Tasks P}
      → Steps (fresh c) n
      → Works k n o
      → (k ≤ 48) × (Goes o ⊎ (OnSocket o ⊎ Settled o))
  Works-Settled c ss ws = (
    Works-le ws,
    Goes-or_Settled _ (Works-Untold ws (Steps-Untold ss (record { has_room = λ _. refl }))),
  )
