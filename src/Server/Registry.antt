-- ===== src/Server/Registry.antt =====
-- src/server.rs: the list of connections, over any messages in any order.
use rrev.Prelude.{
  ℕ, ◌+◌, ◌≡◌, refl, Option, none, some, List, [], ◌∷◌, go_on, stop, arith, ite, inl, inr,
  ControlFlow-cases,
}
use rrev.Prelude.Map.{Map, get, keys, Distinct, erase-Distinct, insert-Distinct}
use rrev.Channel.{SocketAddr, SocketAddr-discrete}
use rrev.Scheme.{Parser}
use rrev.Connection.Types.{ConnectionHdl}
use rrev.Connection.Types as ConnectionTypes
use rrev.Runtime.{Tokio, World}
use rrev.Server.Types.{Server, ServerMessage}
use rrev.Server.{handle_message, serve}

-- How often an address stands in a list.
abbrev pub occurrences : SocketAddr → List SocketAddr → ℕ
occurrences a [] = 0
occurrences a (x ∷ xs) = ite (SocketAddr-discrete x a) 1 0 + occurrences a xs

abbrev pub one_if : {A : Type 0} → Option A → ℕ
one_if none = 0
one_if (some _) = 1

pub occurrences-keys :
    {V : Type 0} (a : SocketAddr) (m : Map SocketAddr V)
    → Distinct SocketAddr-discrete m
    → occurrences a (keys m) ≡ one_if (get SocketAddr-discrete a m)
unfolding get
occurrences-keys a [] d = refl
occurrences-keys a ((k, v) ∷ m) d = ground (arith, occurrences-keys a m d.1)

module _ {P : Parser} where
  abbrev pub Listed : Server P → Type 0
  Listed s = Distinct SocketAddr-discrete s.connections

module _ {P : Parser} {tokio : Tokio P} where
  pub handle_message-Listed :
      (s : Server P) (m : ServerMessage P) (w : World tokio)
      → Listed s
      → Listed (handle_message s m w).0.0
  unfolding handle_message
  handle_message-Listed s (ServerMessage.new_connection connection addr) w d =
      ground (arith, insert-Distinct SocketAddr-discrete addr connection s.connections d)
  handle_message-Listed s
        (ServerMessage.connection_event from ConnectionTypes.ConnectionEvent.close) w d =
      erase-Distinct SocketAddr-discrete from s.connections d
  handle_message-Listed s
        (ServerMessage.connection_event from (ConnectionTypes.ConnectionEvent.event_message e)) w
        d =
      d
  handle_message-Listed s
        (ServerMessage.connection_event from (ConnectionTypes.ConnectionEvent.request_message r)) w
        d =
      d
  handle_message-Listed s (ServerMessage.send_request to tx q) w d =
      ground (arith, erase-Distinct SocketAddr-discrete to s.connections d)
  handle_message-Listed s (ServerMessage.send_event to e) w d =
      ground (arith, erase-Distinct SocketAddr-discrete to s.connections d)
  handle_message-Listed s _ w d = d

  pub serve-go_on :
      (s : Server P) (m : ServerMessage P) (ms : List (ServerMessage P)) (w : World tokio)
      → (handle_message s m w).0.1 ≡ go_on
      → serve s (m ∷ ms) w ≡ serve (handle_message s m w).0.0 ms (handle_message s m w).1
  unfolding serve
  serve-go_on s m ms w e = ground arith

  pub serve-stop :
      (s : Server P) (m : ServerMessage P) (ms : List (ServerMessage P)) (w : World tokio)
      → (handle_message s m w).0.1 ≡ stop
      → serve s (m ∷ ms) w ≡ (
        record { state = (handle_message s m w).0.0; flow = stop; unread = ms },
        (handle_message s m w).1,
      )
  unfolding serve
  serve-stop s m ms w e = ground arith

  -- What every handler keeps of the state, and every handler keeps of the history, the loop keeps.
  pub serve_keeps :
      (Q : Server P → World tokio → Type 0)
      → ((s : Server P) (m : ServerMessage P) (w : World tokio)
          → Q s w
          → Q (handle_message s m w).0.0 (handle_message s m w).1)
      → (ms : List (ServerMessage P)) (s : Server P) (w : World tokio) → Q s w
      → Q (serve s ms w).0.state (serve s ms w).1
  serve_keeps Q keep [] s w q = unfold serve in q
  serve_keeps Q keep (m ∷ ms) s w q = elim (ControlFlow-cases (handle_message s m w).0.1) [
    | inl e ↦
        rw (serve-go_on s m ms w e)
          (serve_keeps Q keep ms (handle_message s m w).0.0 (handle_message s m w).1 (keep s m w q))
    | inr e ↦ rw (serve-stop s m ms w e) (keep s m w q)
  ]
