-- ===== src/Server/Refinement.antt =====
-- src/server.rs: what one message does to the server, told without the representation of its map:
-- which connection stands under which address, and the one message that goes out.
use rrev.Prelude.{
  ◌≡◌, refl, Bool, true, false, Option, none, some, List, [], ◌∷◌, ◌++◌, ControlFlow, go_on, stop,
  arith, ite, map, if◌then◌else◌, inl, inr, Option-cases,
}
use rrev.Prelude.Map.{get, get-erase, get-insert}
use rrev.Channel.{MpscSender, SocketAddr, SocketAddr-discrete}
use rrev.Scheme.{Parser}
use rrev.Connection.Types.{ConnectionHdl, ConnectionMessage}
use rrev.Connection.Types as ConnectionTypes
use rrev.Runtime.{Tokio, World, Packet, Entry, sent, send, to_connection, to_user}
use rrev.Server.Types.{Server, ServerMessage, ServerEvent}
use rrev.Server.{handle_message}

-- The connection at each address.
abbrev pub View : Parser → Type 0
View P = SocketAddr → Option (ConnectionHdl P)

abbrev pub view : {P : Parser} → Server P → View P
view s addr = get SocketAddr-discrete addr s.connections

abbrev update : {A : Type 0} → (SocketAddr → A) → SocketAddr → A → SocketAddr → A
update f k a j = ite (SocketAddr-discrete k j) a (f j)

abbrev keep_or : {A : Type 0} → Option A → A → Option A
keep_or (some old) _ = some old
keep_or none new = some new

module _ {P : Parser} where
  -- `b` says whether the message that goes out arrived. A first connection from an address stays;
  -- one that is closed or cannot be reached is struck off.
  abbrev pub next_view : View P → ServerMessage P → Bool → View P
  next_view v (ServerMessage.new_connection connection addr) b =
      update v addr (keep_or (v addr) connection)
  next_view v (ServerMessage.connection_event from ConnectionTypes.ConnectionEvent.close) b =
      update v from none
  next_view v (ServerMessage.send_request to _ _) b = if b then v else update v to none
  next_view v (ServerMessage.send_event to _) b = if b then v else update v to none
  next_view v _ b = v

  -- A message to the connection at an address, if there is one.
  abbrev routed : Option (ConnectionHdl P) → ConnectionMessage P → List (Packet P)
  routed none _ = []
  routed (some hdl) m = to_connection hdl.tx m ∷ []

  -- The news of a connection, if there was none at its address.
  abbrev announced : Option (ConnectionHdl P) → Packet P → List (Packet P)
  announced none p = p ∷ []
  announced (some _) _ = []

  -- The messages that go out: one or none.
  abbrev pub emitted_by : MpscSender (ServerEvent P) → View P → ServerMessage P → List (Packet P)
  emitted_by tx v (ServerMessage.new_connection _ addr) =
      announced (v addr) (to_user tx (ServerEvent.new_connection addr))
  emitted_by tx v (ServerMessage.connection_event from ConnectionTypes.ConnectionEvent.close) =
      to_user tx (ServerEvent.connection_close from) ∷ []
  emitted_by tx v
        (ServerMessage.connection_event from (ConnectionTypes.ConnectionEvent.event_message e)) =
      to_user tx (ServerEvent.connection_event (record { from = from; event = e })) ∷ []
  emitted_by tx v
        (ServerMessage.connection_event from (ConnectionTypes.ConnectionEvent.request_message r)) =
      to_user tx (ServerEvent.connection_request (record { from = from; request = r })) ∷ []
  emitted_by tx v (ServerMessage.send_request to reply q) =
      routed (v to) (ConnectionMessage.request q reply)
  emitted_by tx v (ServerMessage.send_event to e) = routed (v to) (ConnectionMessage.event e)
  emitted_by tx v _ = []

  abbrev pub emitted : Server P → ServerMessage P → List (Packet P)
  emitted s = emitted_by s.tx (view s)

  -- The server goes on unless it is told to close, or the user cannot be told of an event.
  abbrev pub verdict : ServerMessage P → Bool → ControlFlow
  verdict ServerMessage.close b = stop
  verdict (ServerMessage.connection_event _ _) b = if b then go_on else stop
  verdict _ b = go_on

  -- The queries change nothing, and their answers are not told here.
  abbrev pub is_query : ServerMessage P → Bool
  is_query (ServerMessage.get_listen_address _) = true
  is_query (ServerMessage.get_clients _) = true
  is_query _ = false

  -- All that a handler did: the state, the sends with their outcome `b`, and the way on.
  abbrev pub Does :
      (s : Server P)
      → ServerMessage P
      → List (Entry P)
      → Server P
      → ControlFlow
      → List (Entry P)
      → Type 0
  Does s m before s' flow after =
      (b : Bool) × ((addr : SocketAddr) → view s' addr ≡ next_view (view s) m b addr)
      × (after ≡ map (λ p. sent p b) (emitted s m) ++ before)
      × (flow ≡ verdict m b)

module _ {P : Parser} {tokio : Tokio P} where
  -- Every message but the two queries does to the connections by address what
  -- `next_view` says, sends what `emitted` says and nothing else, and lets the server go on as
  -- `verdict` says, for an outcome `b` of its sends; a handler that sends nothing leaves `b` open.
  pub handle_message_refines :
      (s : Server P) (m : ServerMessage P) (w : World tokio)
      → is_query m ≡ false
      → Does s m w.history
          (handle_message s m w).0.0
          (handle_message s m w).0.1
          (handle_message s m w).1.history
  unfolding handle_message
  handle_message_refines s ServerMessage.close w h = (true, λ _. refl, refl, refl)
  handle_message_refines s (ServerMessage.get_listen_address tx) w h = cc
  handle_message_refines s (ServerMessage.get_clients tx) w h = cc
  handle_message_refines s (ServerMessage.new_connection connection addr) w h =
      elim (Option-cases (get SocketAddr-discrete addr s.connections)) [
        | inl e ↦ (
          (send (to_user s.tx (ServerEvent.new_connection addr)) w).0,
          λ a. ground (arith, get-insert SocketAddr-discrete a addr connection s.connections),
          ground arith,
          ground arith,
        )
        | inr (old, e) ↦ (true, λ a. ground arith, ground arith, ground arith)
      ]
  handle_message_refines s
        (ServerMessage.connection_event from ConnectionTypes.ConnectionEvent.close) w h =
      (
        (send (to_user s.tx (ServerEvent.connection_close from)) w).0,
        λ a. get-erase SocketAddr-discrete a from s.connections,
        refl,
        refl,
      )
  handle_message_refines s
        (ServerMessage.connection_event from (ConnectionTypes.ConnectionEvent.event_message e)) w
        h =
      (
        (send (to_user s.tx (ServerEvent.connection_event (record { from = from; event = e })))
            w).0,
        λ a. refl,
        refl,
        refl,
      )
  handle_message_refines s
        (ServerMessage.connection_event from (ConnectionTypes.ConnectionEvent.request_message r)) w
        h =
      (
        (send (to_user s.tx (ServerEvent.connection_request (record { from = from; request = r })))
            w).0,
        λ a. refl,
        refl,
        refl,
      )
  handle_message_refines s (ServerMessage.send_request to tx q) w h =
      elim (Option-cases (get SocketAddr-discrete to s.connections)) [
        | inl e ↦ (true, λ a. ground arith, ground arith, ground arith)
        | inr (hdl, e) ↦ (
          (send (to_connection hdl.tx (ConnectionMessage.request q tx)) w).0,
          λ a. ground (arith, get-erase SocketAddr-discrete a to s.connections),
          ground arith,
          ground arith,
        )
      ]
  handle_message_refines s (ServerMessage.send_event to e) w h =
      elim (Option-cases (get SocketAddr-discrete to s.connections)) [
        | inl e ↦ (true, λ a. ground arith, ground arith, ground arith)
        | inr (hdl, g) ↦ (
          (send (to_connection hdl.tx (ConnectionMessage.event e)) w).0,
          λ a. ground (arith, get-erase SocketAddr-discrete a to s.connections),
          ground arith,
          ground arith,
        )
      ]
