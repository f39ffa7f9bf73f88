-- ===== src/Server/OneAddress.antt =====
-- src/server.rs: that a handle stands under one address.
use rrev.Prelude.{
  ◌≡◌, sym, ◌∙◌, ◌⊎◌, inl, inr, some, List, [], ◌∷◌, arith, if_pos, if_neg, Bool-cases,
  Option-cases,
}
use rrev.Prelude.Map.{get, erase, insert, is_some, get-insert, get-erase}
use rrev.Channel.{SocketAddr, SocketAddr-discrete}
use rrev.Scheme.{Parser}
use rrev.Runtime.{Tokio, World, send, to_connection}
use rrev.Connection.Types.{ConnectionHdl, ConnectionMessage, ConnectionEvent}
use rrev.Server.Types.{Server, ServerMessage}
use rrev.Server.{handle_message}

module _ {P : Parser} where
  -- The handle stands under no other address.
  abbrev pub Only : SocketAddr → ConnectionHdl P → Server P → Type 0
  Only addr hdl s = (a : SocketAddr) → get SocketAddr-discrete a s.connections ≡ some hdl → a ≡ addr

  -- No message gives the handle another address.
  abbrev pub Named : SocketAddr → ConnectionHdl P → ServerMessage P → Type 0
  Named addr hdl (ServerMessage.new_connection h a) = h ≡ hdl → a ≡ addr
  Named addr hdl _ = Unit {0}

  abbrev pub AllNamed : SocketAddr → ConnectionHdl P → List (ServerMessage P) → Type 0
  AllNamed addr hdl [] = Unit {0}
  AllNamed addr hdl (m ∷ ms) = Named addr hdl m × AllNamed addr hdl ms

  erase-Only :
      (addr a : SocketAddr) (hdl : ConnectionHdl P) (s : Server P)
      → Only addr hdl s
      → Only addr hdl (record s { connections = erase SocketAddr-discrete a s.connections })
  erase-Only addr a hdl s o b h =
      let same = get-erase SocketAddr-discrete b a s.connections in
      elim (SocketAddr-discrete a b) [
        | yes p ↦ cc (sym (if_pos (SocketAddr-discrete a b) p _ _) ∙ sym same ∙ h)
        | no p ↦ o b (sym (if_neg (SocketAddr-discrete a b) p _ _) ∙ sym same ∙ h)
      ]

  insert-Only :
      (addr a : SocketAddr) (hdl h : ConnectionHdl P) (s : Server P)
      → (h ≡ hdl → a ≡ addr)
      → Only addr hdl s
      → Only addr hdl (record s { connections = insert SocketAddr-discrete a h s.connections })
  insert-Only addr a hdl h s n o b e =
      let same = get-insert SocketAddr-discrete b a h s.connections in
      elim (SocketAddr-discrete a b) [
        | yes p ↦
            let one : some h ≡ some hdl =
              sym (if_pos (SocketAddr-discrete a b) p _ _) ∙ sym same ∙ e in
            sym p ∙ n (cc one)
        | no p ↦ o b (sym (if_neg (SocketAddr-discrete a b) p _ _) ∙ sym same ∙ e)
      ]

module _ {P : Parser} {tokio : Tokio P} (addr : SocketAddr) (hdl : ConnectionHdl P) where
  -- A request or an event leaves the connections as they are, or loses the one that it is for.
  send_request-connections :
      (s : Server P) (to : SocketAddr) (tx : _) (q : P.OurRequest) (w : World tokio)
      → let s' = (handle_message s (ServerMessage.send_request to tx q) w).0.0 in
        (s' ≡ s) ⊎ (s' ≡ record s { connections = erase SocketAddr-discrete to s.connections })
  unfolding handle_message
  send_request-connections s to tx q w =
      elim (Option-cases (get SocketAddr-discrete to s.connections)) [
        | inl e ↦ inl (ground arith)
        | inr (h, e) ↦
            elim (Bool-cases (send (to_connection h.tx (ConnectionMessage.request q tx)) w).0) [
              | inl d ↦ inl (ground arith)
              | inr d ↦ inr (ground arith)
            ]
      ]

  send_event-connections :
      (s : Server P) (to : SocketAddr) (x : P.OurEvent) (w : World tokio)
      → let s' = (handle_message s (ServerMessage.send_event to x) w).0.0 in
        (s' ≡ s) ⊎ (s' ≡ record s { connections = erase SocketAddr-discrete to s.connections })
  unfolding handle_message
  send_event-connections s to x w = elim (Option-cases (get SocketAddr-discrete to s.connections)) [
    | inl e ↦ inl (ground arith)
    | inr (h, e) ↦ elim (Bool-cases (send (to_connection h.tx (ConnectionMessage.event x)) w).0) [
      | inl d ↦ inl (ground arith)
      | inr d ↦ inr (ground arith)
    ]
  ]

  new_connection-connections :
      (s : Server P) (h : ConnectionHdl P) (a : SocketAddr) (w : World tokio)
      → let s' = (handle_message s (ServerMessage.new_connection h a) w).0.0 in
        (s' ≡ s) ⊎ (s' ≡ record s { connections = insert SocketAddr-discrete a h s.connections })
  unfolding handle_message
  new_connection-connections s h a w =
      elim (Bool-cases (is_some (get SocketAddr-discrete a s.connections))) [
        | inl e ↦ inl (ground arith)
        | inr e ↦ inr (ground arith)
      ]

  pub handle_message-Only :
      (s : Server P) (m : ServerMessage P) (w : World tokio)
      → Named addr hdl m
      → Only addr hdl s
      → Only addr hdl (handle_message s m w).0.0
  handle_message-Only s (ServerMessage.new_connection h a) w n o =
      elim (new_connection-connections s h a w) [
        | inl e ↦ rw e o
        | inr e ↦ rw e (insert-Only addr a hdl h s n o)
      ]
  handle_message-Only s (ServerMessage.send_request to tx q) w n o =
      elim (send_request-connections s to tx q w) [
        | inl e ↦ rw e o
        | inr e ↦ rw e (erase-Only addr to hdl s o)
      ]
  handle_message-Only s (ServerMessage.send_event to x) w n o =
      elim (send_event-connections s to x w) [
        | inl e ↦ rw e o
        | inr e ↦ rw e (erase-Only addr to hdl s o)
      ]
  handle_message-Only s (ServerMessage.connection_event from ConnectionEvent.close) w n o =
      unfold handle_message in erase-Only addr from hdl s o
  handle_message-Only s (ServerMessage.connection_event from (ConnectionEvent.event_message e)) w n
        o =
      unfold handle_message in o
  handle_message-Only s (ServerMessage.connection_event from (ConnectionEvent.request_message r)) w
        n o =
      unfold handle_message in o
  handle_message-Only s ServerMessage.close w n o = unfold handle_message in o
  handle_message-Only s (ServerMessage.get_listen_address tx) w n o = unfold handle_message in o
  handle_message-Only s (ServerMessage.get_clients tx) w n o = unfold handle_message in o
