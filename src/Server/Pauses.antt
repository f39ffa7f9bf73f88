-- ===== src/Server/Pauses.antt =====
-- src/server.rs: how the steps of the tasks agree with the handlers.
use rrev.Prelude.{
  ◌≡◌, refl, Bool, true, false, List, [], ◌∷◌, ◌++◌, ControlFlow, go_on, stop, arith, map,
  if◌then◌else◌, inl, inr, Option-cases,
}
use rrev.Prelude.Map.{get}
use rrev.Channel.{SocketAddr-discrete}
use rrev.Scheme.{Parser}
use rrev.Connection.Types.{ConnectionMessage}
use rrev.Connection.Types as ConnectionTypes
use rrev.Runtime.{Tokio, World, Packet, sent, send, to_connection, to_user}
use rrev.Server.Types.{Server, ServerMessage, ServerEvent}
use rrev.Server.{handle_message}
use rrev.Server.Waiting.{ServerAt, pause, dropping}
use rrev.Server.Refinement.{is_query}

module _ {P : Parser} where
  -- The message that the server waits to send.
  abbrev pub awaited : ServerAt P → List (Packet P)
  awaited (ServerAt.sending s to hdl m) = to_connection hdl.tx m ∷ []
  awaited (ServerAt.telling s e f) = to_user s.tx e ∷ []
  awaited _ = []

  -- The state and the way on after the wait; `b` says whether the message was sent.
  abbrev pub After : ServerAt P → Bool → Server P × ControlFlow → Type 0
  After (ServerAt.receiving s) b r = r ≡ (s, go_on)
  After (ServerAt.sending s to hdl m) b r = r ≡ (if b then s else dropping s to, go_on)
  After (ServerAt.telling s e f) b r = r ≡ (s, if b then go_on else f)
  After (ServerAt.leaving s) b r = r ≡ (s, stop)
  After _ b r = ⊥

module _ {P : Parser} {tokio : Tokio P} where
  -- For every message but the two queries, `pause` says where its handler waits: what the handler
  -- sends is the message that it waits to send there, and after that, with an outcome `b`, the state
  -- and the way on are those that the steps give.
  pub pause-handle_message :
      (s : Server P) (m : ServerMessage P) (w : World tokio)
      → is_query m ≡ false
      → (b : Bool) × After (pause s m) b (handle_message s m w).0
        × ((handle_message s m w).1.history
            ≡ map (λ p. sent p b) (awaited (pause s m)) ++ w.history)
  unfolding handle_message pause dropping
  pause-handle_message s ServerMessage.close w h = (true, refl, refl)
  pause-handle_message s (ServerMessage.get_listen_address tx) w h = cc
  pause-handle_message s (ServerMessage.get_clients tx) w h = cc
  pause-handle_message s (ServerMessage.new_connection connection addr) w h =
      elim (Option-cases (get SocketAddr-discrete addr s.connections)) [
        | inl e ↦ (
          (send (to_user s.tx (ServerEvent.new_connection addr)) w).0,
          ground arith,
          ground arith,
        )
        | inr (old, e) ↦ (true, ground arith, ground arith)
      ]
  pause-handle_message s (ServerMessage.connection_event from ConnectionTypes.ConnectionEvent.close)
        w h =
      ((send (to_user s.tx (ServerEvent.connection_close from)) w).0, refl, refl)
  pause-handle_message s
        (ServerMessage.connection_event from (ConnectionTypes.ConnectionEvent.event_message e)) w
        h =
      (
        (send (to_user s.tx (ServerEvent.connection_event (record { from = from; event = e })))
            w).0,
        refl,
        refl,
      )
  pause-handle_message s
        (ServerMessage.connection_event from (ConnectionTypes.ConnectionEvent.request_message r)) w
        h =
      (
        (send (to_user s.tx (ServerEvent.connection_request (record { from = from; request = r })))
            w).0,
        refl,
        refl,
      )
  pause-handle_message s (ServerMessage.send_request to tx q) w h =
      elim (Option-cases (get SocketAddr-discrete to s.connections)) [
        | inl e ↦ (true, ground arith, ground arith)
        | inr (hdl, e) ↦ (
          (send (to_connection hdl.tx (ConnectionMessage.request q tx)) w).0,
          ground arith,
          ground arith,
        )
      ]
  pause-handle_message s (ServerMessage.send_event to x) w h =
      elim (Option-cases (get SocketAddr-discrete to s.connections)) [
        | inl e ↦ (true, ground arith, ground arith)
        | inr (hdl, e) ↦ (
          (send (to_connection hdl.tx (ConnectionMessage.event x)) w).0,
          ground arith,
          ground arith,
        )
      ]
