-- ===== src/Tests/TheServer.antt =====
-- Tests of src/server.rs and src/server, and the theorems about them at concrete inputs.
use rrev.Prelude.{ℕ, ℕ_discrete, ◌≡◌, refl, List, [], ◌∷◌, ◌++◌, ok, err, ◌⊎◌, push_all}
use rrev.Prelude.Machine.{Tells}
use rrev.Prelude.Map.{Map, SameEntries, get, erase}
use rrev.Channel.{SocketAddr, SocketAddr-discrete, IoError}
use rrev.Scheme.{string_parser}
use rrev.Connection.Types.{ConnectionHdl, ConnectionMessage, Connection, Receiver, Sender}
use rrev.Connection.Types as ConnectionTypes
use rrev.Runtime.{
  to_connection, to_user, to_acceptor, to_listener, answer_clients, packets, spawned, server_task,
  listener_task, acceptor_task,
}
use rrev.Server.Types.{
  Server, ServerMessage, ServerEvent, ServerHandle, Acceptor, Listener, AcceptorMessage,
  ListenerMessage,
}
use rrev.Server.{handle_message, serve, close_connections, close_all, run}
use rrev.Server.Acceptor.{run as accept_all}
use rrev.Server.Registry.{occurrences, one_if}
use rrev.Server.Clients.{get_clients_exact}
use rrev.Server.Refinement.{View, view}
use rrev.Server.Machine.{routed_sends, server_machine, serve_refines}
use rrev.Server.Shutdown.{farewells, close_events, run-farewells, run-close_events}
use rrev.Server.Queries.{queried, told, told-run, Stopped, run_closes}
use rrev.Server.SameAddress.{second_connection_lost}
use rrev.Server.ServerHandle as ServerCalls
use rrev.Server.Starting.{Linked, new-Starts}
use rrev.Server.Accepting.{Accepts, run-Accepts}
use rrev.Tests.{scripted-Traverses, start, here, scripted}

abbrev pub there : SocketAddr
there = record { ip = 167772161; port = 40000 }

abbrev pub hdl_at : ℕ → ConnectionHdl string_parser
hdl_at n = record { tx = record { channel = n } }

abbrev pub empty : Server string_parser
empty = record {
  rx = record { channel = 1 };
  tx = record { channel = 2 };
  connections = [];
  acceptor_hdl = record { tx = record { channel = 3 } };
  listener_hdl = record { tx = record { channel = 4 } };
}

-- Two come, one leaves.
abbrev pub visits : List (ServerMessage string_parser)
visits =
    ServerMessage.new_connection (hdl_at 21) here
    ∷ ServerMessage.new_connection (hdl_at 22) there
    ∷ ServerMessage.connection_event here ConnectionTypes.ConnectionEvent.close
    ∷ []

-- A query for the clients and one for the address, and one after the close.
abbrev questions : List (ServerMessage string_parser)
questions =
    ServerMessage.get_clients (record { slot = 31 })
    ∷ ServerMessage.get_listen_address (record { slot = 32 })
    ∷ ServerMessage.close
    ∷ ServerMessage.get_clients (record { slot = 33 })
    ∷ []

packets-visits :
    packets (run empty (visits ++ ServerMessage.close ∷ visits) (start [])).1.history
    ≡ to_listener empty.listener_hdl.tx ListenerMessage.close
      ∷ to_acceptor empty.acceptor_hdl.tx AcceptorMessage.close
      ∷ to_connection (hdl_at 22).tx ConnectionMessage.close
      ∷ to_user empty.tx (ServerEvent.connection_close here)
      ∷ to_user empty.tx (ServerEvent.new_connection there)
      ∷ to_user empty.tx (ServerEvent.new_connection here)
      ∷ []
unfolding run serve handle_message close_all close_connections get erase SocketAddr-discrete
    ℕ_discrete
packets-visits = refl

serve_refines_example :
    let (p, w') = serve empty (visits ++ questions) (start []) in
    Tells
      (server_machine empty.tx)
      (view empty)
      (visits ++ questions)
      []
      (view p.state)
      (routed_sends w'.history)
      p.flow
      p.unread
serve_refines_example = serve_refines (visits ++ questions) empty (start [])

get_clients_exact_example :
    let (p, w') = serve empty visits (start []) in
    (known : View string_parser) × (clients : List SocketAddr) × Tells
      (server_machine empty.tx)
      (view empty)
      visits
      []
      known
      (routed_sends w'.history)
      p.flow
      p.unread
    × (packets
          (handle_message p.state (ServerMessage.get_clients (record { slot = 7 })) w').1.history
        ≡ answer_clients (record { slot = 7 }) (ok clients) ∷ packets w'.history)
    × ((addr : SocketAddr) → occurrences addr clients ≡ one_if (known addr))
get_clients_exact_example =
    get_clients_exact empty visits (start []) (record { slot = 7 }) scripted-Traverses tt

run-farewells_example :
    let (p, w') = serve empty visits (start []) in
    (entries : Map SocketAddr (ConnectionHdl string_parser)) × SameEntries SocketAddr-discrete
      entries p.state.connections
    × (packets (run empty visits (start [])).1.history
        ≡ to_listener p.state.listener_hdl.tx ListenerMessage.close
            ∷ to_acceptor p.state.acceptor_hdl.tx AcceptorMessage.close
            ∷ farewells entries
          ++ packets w'.history)
run-farewells_example = run-farewells empty visits (start []) scripted-Traverses tt

run-close_events_example :
    close_events (packets (run empty (visits ++ ServerMessage.close ∷ []) (start [])).1.history) ≡ 0
run-close_events_example = run-close_events empty (visits ++ ServerMessage.close ∷ []) (start [])

second_connection_lost_example :
    let (p, w') =
      serve empty
        (ServerMessage.new_connection (hdl_at 21) here
          ∷ ServerMessage.new_connection (hdl_at 22) here
          ∷ ServerMessage.connection_event here ConnectionTypes.ConnectionEvent.close
          ∷ [])
        (start []) in
    (p.state.connections ≡ [])
    × (packets w'.history
        ≡ to_user empty.tx (ServerEvent.connection_close here)
          ∷ to_user empty.tx (ServerEvent.new_connection here)
          ∷ [])
unfolding get
second_connection_lost_example =
    second_connection_lost empty (hdl_at 21) (hdl_at 22) here (start []) refl

abbrev door : Acceptor string_parser
door = record { rx = record { channel = 3 }; server_hdl = record { tx = record { channel = 1 } } }

-- Two streams, a close, and one stream too late.
abbrev streams : List AcceptorMessage
streams =
    AcceptorMessage.new_stream (record { handle = 5 }) here
    ∷ AcceptorMessage.new_stream (record { handle = 6 }) there
    ∷ AcceptorMessage.close
    ∷ AcceptorMessage.new_stream (record { handle = 7 }) here
    ∷ []

run-Accepts_example :
    let (left, w') = accept_all door streams (start []) in
    Accepts scripted door streams [] w'.history left
run-Accepts_example = run-Accepts streams door (start [])

abbrev user : ServerHandle string_parser
user = record { tx = record { channel = 1 } }

told-run_example :
    let (p, w') = run empty questions (start []) in
    push_all (queried p.unread) (told (packets w'.history)) ≡ 33 ∷ 32 ∷ 31 ∷ []
told-run_example = told-run empty questions (start [])

run_closes_example :
    Stopped questions (run empty (visits ++ ServerMessage.close ∷ questions) (start [])).0
run_closes_example = run_closes visits questions empty (start [])

new-Starts_example :
    let (r, w') = ServerCalls.new "127.0.0.1:0" empty.tx (start []) in
    (a : Acceptor string_parser) × (e : scripted.Env) × (((x : IoError) × ((scripted.bind
            "127.0.0.1:0" e).0
          ≡ err x)
        × (r ≡ err x)
        × (w'.history ≡ spawned (acceptor_task a) ∷ []))
      ⊎ ((l : Listener) × (s : Server string_parser) × ((scripted.bind "127.0.0.1:0" e).0
            ≡ ok l.socket)
          × Linked empty.tx a l s
          × (r ≡ ok (record { tx = record { channel = s.rx.channel } }))
          × (w'.history
              ≡ spawned (server_task s)
                ∷ spawned (listener_task l)
                ∷ spawned (acceptor_task a)
                ∷ [])))
new-Starts_example = new-Starts "127.0.0.1:0" empty.tx (start [])
