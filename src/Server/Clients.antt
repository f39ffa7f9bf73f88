-- ===== src/Server/Clients.antt =====
-- src/server.rs: the list of the clients, over any messages in any order.
use rrev.Prelude.{◌∙◌, ◌≡◌, refl, ap, List, ◌∷◌, Result, ok}
use rrev.Prelude.Machine.{Tells}
use rrev.Prelude.Map.{keys}
use rrev.Channel.{OneshotSender, SocketAddr, SocketAddr-discrete}
use rrev.Scheme.{Parser}
use rrev.Error.{ClientsError}
use rrev.Runtime.{Traverses, Tokio, World, answer_clients, packets}
use rrev.Server.Types.{Server, ServerMessage}
use rrev.Server.{handle_message, serve}
use rrev.Server.Machine.{routed_sends, server_machine, serve_refines}
use rrev.Server.Refinement.{View, view}
use rrev.Server.Registry.{
  Listed, occurrences, occurrences-keys, one_if, serve_keeps, handle_message-Listed,
}

module _ {P : Parser} {tokio : Tokio P} where
  -- After any messages, a user who asks for the clients is sent a list with each address once at
  -- which the machine of the server, told the same messages and how its sends ended, has a
  -- connection, and no other address, if the server began with distinct addresses and a traversal
  -- of a map meets each entry once.
  pub get_clients_exact :
      (s : Server P) (ms : List (ServerMessage P)) (w : World tokio)
      (tx : OneshotSender (Result (List SocketAddr) ClientsError))
      → Traverses tokio
      → Listed s
      → let (p, w') = serve s ms w in
        (known : View P) × (clients : List SocketAddr) × Tells
          (server_machine s.tx)
          (view s)
          ms
          (routed_sends w.history)
          known
          (routed_sends w'.history)
          p.flow
          p.unread
        × (packets (handle_message p.state (ServerMessage.get_clients tx) w').1.history
            ≡ answer_clients tx (ok clients) ∷ packets w'.history)
        × ((addr : SocketAddr) → occurrences addr clients ≡ one_if (known addr))
  get_clients_exact s ms w tx all d =
      let (p, w') = serve s ms w in
      let clients = (tokio.traverse p.state.connections w'.env).0 in
      let same =
        all.each_once SocketAddr-discrete p.state.connections w'.env
          (serve_keeps (λ s' _. Listed s') handle_message-Listed ms s w d) in
      (
        view p.state,
        keys clients,
        serve_refines ms s w,
        unfold handle_message in refl,
        λ addr. occurrences-keys addr clients same.distinct ∙ ap one_if (same.agree addr),
      )
