-- ===== src/Server/Wiring.antt =====
-- src/server/acceptor.rs and src/server/connection_passer.rs: how a new connection's tasks are
-- joined to one another and to the server.
use rrev.Prelude.{
  ◌≡◌, refl, ap, Bool, true, false, List, [], ◌∷◌, ◌++◌, ok, ControlFlow, go_on, stop, arith,
  if◌then◌else◌, push_all, map, ◌⊎◌, inl, inr, Bool-cases,
}
use rrev.Channel.{TcpStream, WsStream, SocketAddr}
use rrev.Scheme.{Parser}
use rrev.Connection.Types.{Connection, Receiver, Sender, ConnectionEvent}
use rrev.Runtime.{
  Tokio, World, Packet, Entry, sent, send, ask, spawned, to_server, connection_task, receiver_task,
  sender_task, passer_task, packets,
}
use rrev.Server.Types.{Acceptor, ServerMessage, PassersServerHandle}
use rrev.Server.Acceptor.{open_connection, accept_stream}
use rrev.Server.ConnectionPasser.{pass_messages}
use rrev.Server.Handles.{passers_handle}

module _ {P : Parser} where
  -- Both halves of the stream `s` are driven by tasks that report to the connection `c` and take
  -- its commands, and `c` is new.
  pub record Joined (s : WsStream) (c : Connection P) (r : Receiver P) (d : Sender P) : Type 0 where
    pub reads : r.ws_receiver ≡ s
    pub writes : d.ws_sender ≡ s
    pub receiver_reports : r.connection_handle.tx.channel ≡ c.internal_rx.channel
    pub sender_reports : d.connection_hdl.tx.channel ≡ c.internal_rx.channel
    pub receiver_obeys : c.receiver_hdl.tx.channel ≡ r.rx.channel
    pub sender_obeys : c.sender_hdl.tx.channel ≡ d.rx.channel
    pub unused : (c.next_id ≡ 0) × (c.reply_map ≡ [])

  -- A connection, its two halves and the outcome of the message to the server.
  abbrev pub Opened :
      Acceptor P → WsStream → SocketAddr → List (Entry P) → ControlFlow → List (Entry P) → Type 0
  Opened a s addr before flow after =
      (c : Connection P) × (r : Receiver P) × (d : Sender P) × (b : Bool) × Joined s c r d
      × (after
          ≡ sent
              (to_server a.server_hdl.tx (
                ServerMessage.new_connection (record { tx = record { channel = c.rx.channel } })
                  addr))
              b
            ∷ spawned (
                passer_task (record { channel = c.event_tx.channel }) (passers_handle a.server_hdl)
                  addr)
            ∷ spawned (connection_task c)
            ∷ spawned (receiver_task r)
            ∷ spawned (sender_task d)
            ∷ before)
      × (flow ≡ (if b then go_on else stop))

module _ {P : Parser} {tokio : Tokio P} where
  open_connection_opens :
      (a : Acceptor P) (s : WsStream) (addr : SocketAddr) (w : World tokio)
      → let (flow, w') = open_connection a s addr w in Opened a s addr w.history flow w'.history
  unfolding open_connection
  open_connection_opens a s addr w = (
    _,
    _,
    _,
    _,
    record {
      reads = refl;
      writes = refl;
      receiver_reports = refl;
      sender_reports = refl;
      receiver_obeys = refl;
      sender_obeys = refl;
      unused = (refl, refl);
    },
    refl,
    ground arith,
  )

  accept_stream-ok :
      (a : Acceptor P) (stream : TcpStream) (addr : SocketAddr) (w : World tokio) (s : WsStream)
      → (tokio.upgrade stream w.env).0 ≡ ok s
      → accept_stream a stream addr w ≡ open_connection a s addr (ask (tokio.upgrade stream) w).1
  unfolding accept_stream
  accept_stream-ok a stream addr w s e = ground arith

  -- A stream that can be upgraded gets four tasks: the connection with its two halves, and a passer
  -- that takes the connection's events to the server under the address of the peer. The server is
  -- sent a handle whose messages go to that connection, and if it is gone the acceptor ends.
  pub accept_stream_opens :
      (a : Acceptor P) (stream : TcpStream) (addr : SocketAddr) (w : World tokio) (s : WsStream)
      → (tokio.upgrade stream w.env).0 ≡ ok s
      → let (flow, w') = accept_stream a stream addr w in Opened a s addr w.history flow w'.history
  unfolding ask
  accept_stream_opens a stream addr w s e =
      rw (accept_stream-ok a stream addr w s e)
        (open_connection_opens a s addr (ask (tokio.upgrade stream) w).1)

  pass_messages-ok :
      (e : ConnectionEvent P) (es : List (ConnectionEvent P)) (hdl : PassersServerHandle P)
      (addr : SocketAddr) (w : World tokio)
      → (send (to_server hdl.tx (ServerMessage.connection_event addr e)) w).0 ≡ true
      → pass_messages (e ∷ es) hdl addr w
        ≡ pass_messages es hdl addr
            (send (to_server hdl.tx (ServerMessage.connection_event addr e)) w).1
  unfolding pass_messages
  pass_messages-ok e es hdl addr w done = ground arith

  pass_messages-err :
      (e : ConnectionEvent P) (es : List (ConnectionEvent P)) (hdl : PassersServerHandle P)
      (addr : SocketAddr) (w : World tokio)
      → (send (to_server hdl.tx (ServerMessage.connection_event addr e)) w).0 ≡ false
      → pass_messages (e ∷ es) hdl addr w
        ≡ (es, (send (to_server hdl.tx (ServerMessage.connection_event addr e)) w).1)
  unfolding pass_messages
  pass_messages-err e es hdl addr w gone = ground arith

  -- A passer takes events to the server in order, each once and tagged with its address. What it
  -- leaves unread it leaves because the server was gone.
  pub pass_messages_lem :
      (es : List (ConnectionEvent P)) (hdl : PassersServerHandle P) (addr : SocketAddr)
      (w : World tokio)
      → let (rest, w') = pass_messages es hdl addr w in
        (taken : List (ConnectionEvent P)) × (es ≡ taken ++ rest)
        × (packets w'.history
            ≡ push_all
                (map (λ e. to_server hdl.tx (ServerMessage.connection_event addr e)) taken)
                (packets w.history))
        × ((rest ≡ []) ⊎ ((p : Packet P) × (h : List (Entry P)) × (w'.history ≡ sent p false ∷ h)))
  unfolding send
  pass_messages_lem [] hdl addr w = unfold pass_messages in ([], refl, refl, inl refl)
  pass_messages_lem (e ∷ es) hdl addr w =
      let p : Packet P = to_server hdl.tx (ServerMessage.connection_event addr e) in
      elim (Bool-cases (send p w).0) [
        | inl done ↦
            let (taken, all, sent_on, end) = pass_messages_lem es hdl addr (send p w).1 in
            rw (pass_messages-ok e es hdl addr w done)
              (e ∷ taken, ap (λ l. e ∷ l) all, sent_on, end)
        | inr gone ↦
            rw (pass_messages-err e es hdl addr w gone)
              (e ∷ [], refl, refl, inr (p, w.history, ground arith))
      ]
