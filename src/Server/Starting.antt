-- ===== src/Server/Starting.antt =====
-- src/server/server_handle.rs, src/server.rs, src/server/listener.rs: how a server starts.
use rrev.Prelude.{ℕ, ◌≡◌, refl, String, [], ◌∷◌, ok, err, arith, ◌⊎◌, inl, inr, Result-cases}
use rrev.Channel.{MpscSender, IoError}
use rrev.Scheme.{Parser}
use rrev.Runtime.{Tokio, World, spawned, acceptor_task, listener_task, server_task}
use rrev.Server.Types.{Server, ServerEvent, Acceptor, Listener}
use rrev.Server.ServerHandle.{new}

module _ {P : Parser} where
  -- The handles of the three tasks lead to one another, and the server has no connections yet.
  pub record Linked (event_tx : MpscSender (ServerEvent P)) (a : Acceptor P) (l : Listener)
      (s : Server P) : Type 0 where
    pub acceptor_reports : a.server_hdl.tx.channel ≡ s.rx.channel
    pub acceptor_obeys : s.acceptor_hdl.tx.channel ≡ a.rx.channel
    pub listener_reports : l.acceptor_hdl.tx.channel ≡ a.rx.channel
    pub listener_obeys : s.listener_hdl.tx.channel ≡ l.rx.channel
    pub tells : s.tx ≡ event_tx
    pub unused : s.connections ≡ []

module _ {P : Parser} {tokio : Tokio P} where
  -- If the address can be bound, the three tasks of a server are started, with the handles of one
  -- another, and the user gets a handle whose messages go to the server. If it cannot, the user gets
  -- the error of the bind, and of the three only the acceptor has been started. Nothing is sent.
  pub new-Starts :
      (listen_addr : String) (event_tx : MpscSender (ServerEvent P)) (w : World tokio)
      → let (r, w') = new listen_addr event_tx w in
        (a : Acceptor P) × (e : tokio.Env) × (((x : IoError) × ((tokio.bind listen_addr e).0
              ≡ err x)
            × (r ≡ err x)
            × (w'.history ≡ spawned (acceptor_task a) ∷ w.history))
          ⊎ ((l : Listener) × (s : Server P) × ((tokio.bind listen_addr e).0 ≡ ok l.socket)
              × Linked event_tx a l s
              × (r ≡ ok (record { tx = record { channel = s.rx.channel } }))
              × (w'.history
                  ≡ spawned (server_task s)
                    ∷ spawned (listener_task l)
                    ∷ spawned (acceptor_task a)
                    ∷ w.history)))
  unfolding new
  new-Starts listen_addr event_tx w =
      let e1 : tokio.Env = (tokio.fresh w.env).1 in
      let e2 : tokio.Env = (tokio.fresh e1).1 in
      let e : tokio.Env = (tokio.fresh e2).1 in
      let to_acceptor : ℕ = (tokio.fresh e1).0 in
      let to_listener : ℕ = (tokio.fresh e2).0 in
      let a : Acceptor P = record {
        rx = record { channel = to_acceptor };
        server_hdl = record { tx = record { channel = (tokio.fresh w.env).0 } };
      } in
      elim (Result-cases (tokio.bind listen_addr e).0) [
        | inr (x, b) ↦ (a, e, inl (x, b, ground arith, ground arith))
        | inl (socket, b) ↦
            let l : Listener = record {
              rx = record { channel = to_listener };
              acceptor_hdl = record { tx = record { channel = to_acceptor } };
              socket = socket;
            } in
            let s : Server P = record {
              rx = record { channel = (tokio.fresh w.env).0 };
              tx = event_tx;
              connections = [];
              acceptor_hdl = record { tx = record { channel = to_acceptor } };
              listener_hdl = record { tx = record { channel = to_listener } };
            } in
            let linked : Linked event_tx a l s = record {
              acceptor_reports = refl;
              acceptor_obeys = refl;
              listener_reports = refl;
              listener_obeys = refl;
              tells = refl;
              unused = refl;
            } in
            (a, e, inr (l, s, b, linked, ground arith, ground arith))
      ]
