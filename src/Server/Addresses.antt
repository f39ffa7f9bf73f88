-- ===== src/Server/Addresses.antt =====
-- src/server.rs and src/server/listener.rs: how a query for the listen address is answered.
use rrev.Prelude.{
  ◌≡◌, refl, ap, Bool, true, false, Option, none, some, ◌∷◌, Result, err, go_on, arith, map_err,
  ◌⊎◌, inl, inr, Bool-cases, Option-cases,
}
use rrev.Channel.{OneshotSender, SocketAddr, IoError}
use rrev.Scheme.{Parser}
use rrev.Error.{ListenAddrError}
use rrev.Runtime.{Tokio, World, sent, send, answer_address, answer_local, to_listener, packets}
use rrev.Server.Types.{Server, ServerMessage, Listener, ListenerMessage, ListenerHandle}
use rrev.Server.{handle_message}
use rrev.Server.Listener as Listening
use rrev.Server.Listener.{get_addr}

-- What the user is told if this comes back from the listener.
abbrev pub explained : Option (Result SocketAddr IoError) → Result SocketAddr ListenAddrError
explained none = err ListenAddrError.recv_error
explained (some a) = map_err ListenAddrError.io a

module _ {P : Parser} {tokio : Tokio P} where
  -- The oneshot that the listener is sent, whether it arrives, and the result.
  get_addr_asks :
      (hdl : ListenerHandle) (w : World tokio)
      → let (r, w') = get_addr hdl w in
        (to : OneshotSender (Result SocketAddr IoError)) × (b : Bool) × (w'.history
          ≡ sent (to_listener hdl.tx (ListenerMessage.get_address to)) b ∷ w.history)
        × (((b ≡ false) × (r ≡ err ListenAddrError.send_error))
            ⊎ ((b ≡ true) × ((e : tokio.Env) × (r ≡ explained (tokio.answered_local to e).0))))
  unfolding get_addr
  get_addr_asks hdl w =
      let n = tokio.fresh w.env in
      let to : OneshotSender (Result SocketAddr IoError) = record { slot = n.0 } in
      let done = tokio.deliver (to_listener hdl.tx (ListenerMessage.get_address to)) n.1 in
      let back = (tokio.answered_local to done.1).0 in
      (
        to,
        done.0,
        elim (Bool-cases done.0) [
          | inl d ↦ elim (Option-cases back) [ inl e ↦ ground arith | inr (a, e) ↦ ground arith ]
          | inr d ↦ ground arith
        ],
        elim (Bool-cases done.0) [
          | inr d ↦ inl (d, ground arith)
          | inl d ↦ inr (
            d,
            (done.1, elim (Option-cases back) [ inl e ↦ ground arith | inr (a, e) ↦ ground arith ]),
          )
        ],
      )

  -- A query for the listen address leaves the server as it is. The server asks its listener on a
  -- oneshot, the listener answers on it with the address of its socket, and the user gets what came
  -- back on it, and an error where nothing came or where the listener could not be asked.
  pub address_comes_back :
      (s : Server P) (l : Listener) (tx : OneshotSender (Result SocketAddr ListenAddrError))
      (w v : World tokio)
      → let ((s', flow), w') = handle_message s (ServerMessage.get_listen_address tx) w in
        (s' ≡ s)
        × (flow ≡ go_on)
        × ((to : OneshotSender (Result SocketAddr IoError)) × (b b' : Bool) × (r : Result SocketAddr
              ListenAddrError)
            × (w'.history
                ≡ sent (answer_address tx r) b'
                  ∷ sent (to_listener s.listener_hdl.tx (ListenerMessage.get_address to)) b
                  ∷ w.history)
            × (packets (Listening.handle_message l (ListenerMessage.get_address to) v).1.history
                ≡ answer_local to (tokio.local_addr l.socket v.env).0 ∷ packets v.history)
            × (((b ≡ false) × (r ≡ err ListenAddrError.send_error))
                ⊎ ((b ≡ true) × ((e : tokio.Env) × (r ≡ explained (tokio.answered_local to e).0)))))
  unfolding handle_message Listening.handle_message
  address_comes_back s l tx w v =
      let (r, w') = get_addr s.listener_hdl w in
      let (to, b, asked, why) = get_addr_asks s.listener_hdl w in
      (
        refl,
        refl,
        (
          to,
          b,
          (send (answer_address tx r) w').0,
          r,
          ap (λ h. sent (answer_address tx r) (send (answer_address tx r) w').0 ∷ h) asked,
          refl,
          why,
        ),
      )
