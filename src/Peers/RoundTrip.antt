-- ===== src/Peers/RoundTrip.antt =====
-- The way of a request through src/server.rs, src/connection.rs and src/connection/sender.rs over the
-- websocket to src/connection/receiver.rs and the owner of the connection at the other end, and the
-- way of its reply back.
use rrev.Prelude.{
  ◌≡◌, ap, ◌∙◌, none, some, List, [], ◌∷◌, ◌++◌, ok, go_on, ℕ, ℕ_discrete, arith, map, push_all,
}
use rrev.Prelude.Map.{get}
use rrev.Channel.{OneshotSender, SocketAddr, SocketAddr-discrete}
use rrev.Scheme.{Parser, Message, OurMessage}
use rrev.Runtime.{
  Tokio, World, Wire, answer, to_connection, to_internal, to_owner, to_sender, packets,
}
use rrev.Connection.Types.{
  Answer, Connection, ConnectionHdl, ConnectionEvent, ConnectionMessage, InternalMessage, Receiver,
  RequestHandle, Sender, SenderMessage,
}
use rrev.Connection.{Turn, external, internal, handle_turn, run_loop}
use rrev.Connection.Receiver as Reader
use rrev.Connection.Receiver.{from_ws}
use rrev.Connection.RequestHandle as Handle
use rrev.Connection.Requests.{NoReplyTo, reply_reaches_request}
use rrev.Connection.Sender as Writer
use rrev.Connection.Writing.{texts}
use rrev.Server.Types.{Server, ServerMessage}
use rrev.Server.{handle_message}
use rrev.Peers.{Reads, Agree, read, run-run, complete_request}

module _ {P : Parser} where
  -- The connection and its two halves, joined by their channels.
  pub record Joined (c : Connection P) (x : Sender P) (r : Receiver P) : Type 0 where
    pub writes : c.sender_hdl.tx ≡ record { channel = x.rx.channel }
    pub hears : r.connection_handle.tx ≡ record { channel = c.internal_rx.channel }

  -- The handle of the connection.
  abbrev pub handle_of : Connection P → ConnectionHdl P
  handle_of c = record { tx = record { channel = c.rx.channel } }

-- The message that a request becomes, and the message that its reply becomes.
abbrev pub request_with : (P : Parser) → ℕ → P.OurRequest → OurMessage P
request_with P id q = Message.request (record { id = id; payload = q })

abbrev pub reply_with : (P : Parser) → ℕ → P.OurReply → OurMessage P
reply_with P id a = Message.reply (record { id = id; payload = a })

module _ {P Q : Parser} {here : Tokio P} where
  -- The websocket brings frames with the texts that the sender writes for the messages, in order.
  pub record Carries (ours : Wire P) (theirs : Wire Q) (x : Sender P) (ms : List (OurMessage P))
      (w : World here) (frames : List theirs.Frame) : Type 0 where
    pub first : texts w.history ≡ []
    pub same :
        map theirs.to_text frames
        ≡ map
            (λ t. some t)
            (push_all (texts (Writer.run ours x (map SenderMessage.message ms) w).1.history) [])

module _ {P Q : Parser} {there : Tokio Q} where
  -- The messages come to the connection at the other end.
  abbrev pub Comes :
      (f : Reads P Q) (theirs : Wire Q) (d : Connection Q) (r : Receiver Q)
      (ms : List (OurMessage P)) (frames : List theirs.Frame)
      → World there
      → Type 0
  Comes f theirs d r ms frames v =
      packets (Reader.run theirs r (map (λ x. from_ws (some (ok x))) frames) v).1.history
      ≡ push_all
          (map
            (λ m.
              to_internal (record { channel = d.internal_rx.channel })
                (InternalMessage.new_message (read f m)))
            ms)
          (packets v.history)

module _ {P Q : Parser} {here : Tokio P} {there : Tokio Q} where
  carried :
      (f : Reads P Q) (ours : Wire P) (theirs : Wire Q) (x : Sender P) (d : Connection Q)
      (y : Sender Q) (r : Receiver Q) (ms : List (OurMessage P)) (frames : List theirs.Frame)
      (w : World here) (v : World there)
      → Agree f ours theirs
      → Joined d y r
      → Carries ours theirs x ms w frames
      → Comes f theirs d r ms frames v
  carried f ours theirs x d y r ms frames w v agree joined c =
      run-run ours theirs x ms w r frames v agree c.first c.same
      ∙ ap
          (λ t.
            push_all (map (λ m. to_internal t (InternalMessage.new_message (read f m))) ms)
              (packets v.history))
          joined.hears

module _ {P : Parser} {here : Tokio P} where
  server_passes :
      (s : Server P) (to : SocketAddr) (hdl : ConnectionHdl P) (q : P.OurRequest)
      (tx : OneshotSender (Answer P)) (w : World here)
      → get SocketAddr-discrete to s.connections ≡ some hdl
      → packets (handle_message s (ServerMessage.send_request to tx q) w).1.history
        ≡ to_connection hdl.tx (ConnectionMessage.request q tx) ∷ packets w.history
  unfolding handle_message
  server_passes s to hdl q tx w found = ground arith

  connection_passes :
      (c : Connection P) (x : Sender P) (r : Receiver P) (q : P.OurRequest)
      (tx : OneshotSender (Answer P)) (w : World here)
      → Joined c x r
      → get ℕ_discrete c.next_id c.reply_map ≡ none
      → packets (handle_turn c (external (ConnectionMessage.request q tx)) w).1.history
        ≡ to_sender
            (record { channel = x.rx.channel })
            (SenderMessage.message (request_with P c.next_id q))
          ∷ packets w.history
  unfolding handle_turn
  connection_passes c x r q tx w joined free = ground (arith, joined.writes)

module _ {P Q : Parser} {here : Tokio P} {there : Tokio Q} (f : Reads P Q) (g : Reads Q P)
    (ours : Wire P) (theirs : Wire Q) where
  -- A request to an address that has a connection comes to the owner of the connection at the other
  -- end of the websocket, and the reply that the owner completes it with comes back to the oneshot of
  -- the request, through the server, the connection, its sender, the receiver and the connection at
  -- the other end, and the sender there, the receiver here and the connection again, each of which
  -- gives the message to the channel that the next one reads: whatever messages the two senders are
  -- given before and after, and whatever the connection takes between the two but a reply with the
  -- same id. Conditions: the id was free and the connection is still running, the halves are joined
  -- with their connections, the websocket brings the texts that the senders write, in order, and
  -- serde reads back what it writes, where `f` and `g` say how each side reads the payloads of the
  -- other.
  pub request_round_trip :
      (s : Server P) (to : SocketAddr) (c : Connection P) (x : Sender P) (r : Receiver P)
      (d : Connection Q) (y : Sender Q) (z : Receiver Q) (q : P.OurRequest)
      (tx : OneshotSender (Answer P)) (ts : List (Turn P)) (payload : Q.OurReply)
      (a b : List (OurMessage P)) (there_frames : List theirs.Frame) (k l : List (OurMessage Q))
      (here_frames : List ours.Frame) (w w₁ w₂ : World here) (v v₁ v₂ v₃ : World there)
      → Agree f ours theirs
      → Agree g theirs ours
      → Joined c x r
      → Joined d y z
      → get SocketAddr-discrete to s.connections ≡ some (handle_of c)
      → get ℕ_discrete c.next_id c.reply_map ≡ none
      → NoReplyTo c.next_id ts
      → (run_loop c (external (ConnectionMessage.request q tx) ∷ ts) w).0.flow ≡ go_on
      → Carries ours theirs x (a ++ request_with P c.next_id q ∷ b) w₁ there_frames
      → Carries theirs ours y (k ++ reply_with Q c.next_id payload ∷ l) v₁ here_frames
      → let (p, w') = run_loop c (external (ConnectionMessage.request q tx) ∷ ts) w in
        let request : OurMessage P = request_with P c.next_id q in
        let reply : OurMessage Q = reply_with Q c.next_id payload in
        (asked : RequestHandle Q) × (packets
            (handle_message s (ServerMessage.send_request to tx q) w).1.history
          ≡ to_connection (record { channel = c.rx.channel }) (ConnectionMessage.request q tx)
            ∷ packets w.history)
        × (packets (handle_turn c (external (ConnectionMessage.request q tx)) w).1.history
            ≡ to_sender (record { channel = x.rx.channel }) (SenderMessage.message request)
              ∷ packets w.history)
        × Comes f theirs d z (a ++ request ∷ b) there_frames v
        × (packets
              (handle_turn d (internal (InternalMessage.new_message (read f request))) v₂).1.history
            ≡ to_owner d.event_tx (ConnectionEvent.request_message asked) ∷ packets v₂.history)
        × (Handle.get_request asked ≡ f.request q)
        × (packets (Handle.complete asked payload v₃).1.history
            ≡ to_sender (record { channel = y.rx.channel }) (SenderMessage.message reply)
              ∷ packets v₃.history)
        × Comes g ours c r (k ++ reply ∷ l) here_frames w₂
        × (packets
              (handle_turn p.state
                (internal (InternalMessage.new_message (read g reply)))
                w').1.history
            ≡ answer tx (ok (g.reply payload)) ∷ packets w'.history)
  request_round_trip s to c x r d y z q tx ts payload a b fs k l gs w w₁ w₂ v v₁ v₂ v₃ ag ga jc jd
        found free h runs out back =
      let (asked, told, same, completed) =
        complete_request d (record { id = c.next_id; payload = f.request q }) payload v₂ v₃ in
      (
        asked,
        server_passes s to (handle_of c) q tx w found,
        connection_passes c x r q tx w jc free,
        carried f ours theirs x d y z (a ++ request_with P c.next_id q ∷ b) fs w₁ v ag jd out,
        told,
        same,
        completed
            ∙ ap
                (λ t.
                  to_sender t (SenderMessage.message (reply_with Q c.next_id payload))
                  ∷ packets v₃.history)
                jd.writes,
        carried g theirs ours y c x r (k ++ reply_with Q c.next_id payload ∷ l) gs v₁ w₂ ga jc back,
        (reply_reaches_request c q tx ts (g.reply payload) w free h runs).0,
      )
