-- ===== src/Server/Queries.antt =====
-- src/server.rs: the answers to the queries for the listen address and the clients, and how the
-- server is made to end.
use rrev.Prelude.{
  ◌≡◌, refl, sym, ap, ◌∙◌, List, [], ◌∷◌, ◌++◌, ℕ, stop, arith, inl, inr, push_all,
  ControlFlow-cases,
}
use mathlib.Core.List.{append_assoc}
use rrev.Prelude.Map.{Map}
use rrev.Channel.{SocketAddr}
use rrev.Scheme.{Parser}
use rrev.Connection.Types.{ConnectionHdl, ConnectionMessage}
use rrev.Connection.Types as ConnectionTypes
use rrev.Runtime.{Tokio, World, Packet, answer_address, answer_clients, to_connection, packets}
use rrev.Server.Types.{Server, ServerMessage}
use rrev.Server.{Serving, handle_message, serve, run}
use rrev.Server.Registry.{serve-go_on, serve-stop}
use rrev.Server.Shutdown.{farewells, run-packets}

module _ {P : Parser} where
  -- The oneshots of the queries.
  abbrev pub queried : List (ServerMessage P) → List ℕ
  queried [] = []
  queried (ServerMessage.get_listen_address tx ∷ ms) = tx.slot ∷ queried ms
  queried (ServerMessage.get_clients tx ∷ ms) = tx.slot ∷ queried ms
  queried (_ ∷ ms) = queried ms

  -- The oneshots that an answer to a query was sent on, newest first.
  abbrev pub told : List (Packet P) → List ℕ
  told [] = []
  told (answer_address tx _ ∷ ps) = tx.slot ∷ told ps
  told (answer_clients tx _ ∷ ps) = tx.slot ∷ told ps
  told (_ ∷ ps) = told ps

  told-farewells :
      (m : Map SocketAddr (ConnectionHdl P)) (ps : List (Packet P))
      → told (farewells m ++ ps) ≡ told ps
  told-farewells [] ps = refl
  told-farewells ((_, hdl) ∷ m) ps =
      rw (append_assoc (farewells m) (to_connection hdl.tx ConnectionMessage.close ∷ []) ps)
        (told-farewells m (to_connection hdl.tx ConnectionMessage.close ∷ ps))

-- The task has ended, and `us` is in what it has not taken.
abbrev pub Stopped : {P : Parser} → List (ServerMessage P) → Serving P → Type 0
Stopped {P} us p = (p.flow ≡ stop) × (rest : List (ServerMessage P)) × (p.unread ≡ rest ++ us)

module _ {P : Parser} {tokio : Tokio P} where
  told-handle_message :
      (s : Server P) (m : ServerMessage P) (ms : List (ServerMessage P)) (w : World tokio)
      → push_all (queried ms) (told (packets (handle_message s m w).1.history))
        ≡ push_all (queried (m ∷ ms)) (told (packets w.history))
  unfolding handle_message
  told-handle_message s (ServerMessage.connection_event from ConnectionTypes.ConnectionEvent.close)
        ms w =
      refl
  told-handle_message s
        (ServerMessage.connection_event from (ConnectionTypes.ConnectionEvent.event_message e)) ms
        w =
      refl
  told-handle_message s
        (ServerMessage.connection_event from (ConnectionTypes.ConnectionEvent.request_message r)) ms
        w =
      refl
  told-handle_message s m ms w = ground arith

  told-serve :
      (ms : List (ServerMessage P)) (s : Server P) (w : World tokio)
      → let (p, w') = serve s ms w in
        push_all (queried p.unread) (told (packets w'.history))
        ≡ push_all (queried ms) (told (packets w.history))
  told-serve [] s w = unfold serve in refl
  told-serve (m ∷ ms) s w = elim (ControlFlow-cases (handle_message s m w).0.1) [
    | inl e ↦ rw (serve-go_on s m ms w e) (
        told-serve ms (handle_message s m w).0.0 (handle_message s m w).1
        ∙ told-handle_message s m ms w)
    | inr e ↦ rw (serve-stop s m ms w e) (told-handle_message s m ms w)
  ]

  -- Every query that the server's task takes is answered on its own oneshot, once, and in the order
  -- in which the queries come; the others are still in the messages that it has not taken.
  pub told-run :
      (s : Server P) (ms : List (ServerMessage P)) (w : World tokio)
      → let (p, w') = run s ms w in
        push_all (queried p.unread) (told (packets w'.history))
        ≡ push_all (queried ms) (told (packets w.history))
  unfolding run
  told-run s ms w =
      let (p, w') = serve s ms w in
      ap (λ l. push_all (queried p.unread) (told l)) (run-packets s ms w)
      ∙ ap (λ l. push_all (queried p.unread) l)
          (told-farewells (tokio.traverse p.state.connections w'.env).0 (packets w'.history))
      ∙ told-serve ms s w

  serve-close :
      (ms us : List (ServerMessage P)) (s : Server P) (w : World tokio)
      → Stopped us (serve s (ms ++ ServerMessage.close ∷ us) w).0
  serve-close [] us s w =
      rw (serve-stop s ServerMessage.close us w (unfold handle_message in refl)) (refl, [], refl)
  serve-close (m ∷ ms) us s w = elim (ControlFlow-cases (handle_message s m w).0.1) [
    | inl e ↦
        rw (serve-go_on s m (ms ++ ServerMessage.close ∷ us) w e)
          (serve-close ms us (handle_message s m w).0.0 (handle_message s m w).1)
    | inr e ↦
        rw (serve-stop s m (ms ++ ServerMessage.close ∷ us) w e) (
          refl,
          ms ++ ServerMessage.close ∷ [],
          sym (append_assoc ms (ServerMessage.close ∷ []) us),
        )
  ]

  -- A close message takes the server's task out of its loop, if nothing before did, and no
  -- message after it is taken, whatever came before it and whatever the runtime answers. That the
  -- sends after the loop end is not said.
  pub run_closes :
      (ms us : List (ServerMessage P)) (s : Server P) (w : World tokio)
      → Stopped us (run s (ms ++ ServerMessage.close ∷ us) w).0
  unfolding run
  run_closes ms us s w = serve-close ms us s w
