-- ===== src/Examples/Echoes.antt =====
-- examples: what the programs send, and how an event of a client comes back to it.
use rrev.Prelude.{◌≡◌, refl, ◌⊎◌, false, String, some, List, [], ◌∷◌, ◌++◌, arith}
use rrev.Prelude.Map.{get}
use rrev.Channel.{SocketAddr, SocketAddr-discrete}
use rrev.Scheme.{string_parser, Message}
use rrev.Connection.Types.{
  Connection, ConnectionHdl, ConnectionMessage, RequestHandle, SenderMessage,
}
use rrev.Connection.Types as ConnectionTypes
use rrev.Connection.{external, handle_turn}
use rrev.Runtime.{
  Tokio, World, Packet, Entry, sent, to_sender, to_server, to_user, to_connection, packets,
}
use rrev.Server.Types.{Server, ServerMessage, ServerHandle, ServerEvent, ConnectionEvent}
use rrev.Server.{handle_message}
use rrev.Examples.{Exit, returned, panicked}
use rrev.Examples.EchoServer.{handle_event}

-- A request goes back as its reply, under its id.
abbrev pub reply_echo : RequestHandle string_parser → Packet string_parser
reply_echo r = to_sender r.sender_hdl.tx (
    SenderMessage.message
      (Message.reply (record { id = r.request.id; payload = r.request.payload })))

-- What the echo server sends for the events, in order.
abbrev pub echoes :
    ServerHandle string_parser → List (ServerEvent string_parser) → List (Packet string_parser)
echoes hdl [] = []
echoes hdl (ServerEvent.connection_request r ∷ es) = reply_echo r.request ∷ echoes hdl es
echoes hdl (ServerEvent.connection_event e ∷ es) =
    to_server hdl.tx (ServerMessage.send_event e.from e.event) ∷ echoes hdl es
echoes hdl (_ ∷ es) = echoes hdl es

-- How the loop ended: the channel was closed, the server said that it closed, or the server did not
-- take the event that the loop took last, and a call of `expect` panicked.
abbrev pub Ending :
    ServerHandle string_parser
    → List (ServerEvent string_parser)
    → List (ServerEvent string_parser)
    → Exit
    → List (Entry string_parser)
    → Type 0
Ending hdl taken left exit after =
    ((left ≡ []) × (exit ≡ returned))
    ⊎ (((rest : List (ServerEvent string_parser)) × (left ≡ ServerEvent.close ∷ rest)
          × (exit ≡ returned))
        ⊎ ((exit ≡ panicked)
            × ((first : List (ServerEvent string_parser)) × (e : ConnectionEvent String) × (taken
                  ≡ first ++ ServerEvent.connection_event e ∷ [])
                × ((h : List (Entry string_parser)) × (after
                      ≡ sent (to_server hdl.tx (ServerMessage.send_event e.from e.event)) false
                        ∷ h)))))

module _ {tokio : Tokio string_parser} where
  -- An event that a client sends comes to the user of the server with its address, and what the echo
  -- server does with it comes to the server, then to the connection that stands at that address, and
  -- then, with the same payload, to the sender of that connection.
  pub echo_comes_back :
      (s : Server string_parser) (user : ServerHandle string_parser) (c : Connection string_parser)
      (hdl : ConnectionHdl string_parser) (from : SocketAddr) (e : String) (w : World tokio)
      → get SocketAddr-discrete from s.connections ≡ some hdl
      → let event : ConnectionTypes.ConnectionEvent string_parser =
          ConnectionTypes.ConnectionEvent.event_message e in
        let told : ConnectionEvent String = record { from = from; event = e } in
        let back : ServerMessage string_parser = ServerMessage.send_event from e in
        (packets (handle_message s (ServerMessage.connection_event from event) w).1.history
          ≡ to_user s.tx (ServerEvent.connection_event told) ∷ packets w.history)
        × (packets (handle_event user (ServerEvent.connection_event told) w).1.history
            ≡ to_server user.tx back ∷ packets w.history)
        × (packets (handle_message s back w).1.history
            ≡ to_connection hdl.tx (ConnectionMessage.event e) ∷ packets w.history)
        × (packets (handle_turn c (external (ConnectionMessage.event e)) w).1.history
            ≡ to_sender c.sender_hdl.tx (SenderMessage.message (Message.event e))
              ∷ packets w.history)
  unfolding handle_message handle_event handle_turn
  echo_comes_back s user c hdl from e w found = (refl, refl, ground arith, refl)
