-- ===== src/Server/SameAddress.antt =====
-- src/server.rs: a connection from an address whose earlier connection the server has not yet seen
-- close.
use rrev.Prelude.{◌≡◌, none, [], ◌∷◌, arith}
use rrev.Prelude.Map.{get, erase-none, get_head, erase_head}
use rrev.Channel.{SocketAddr, SocketAddr-discrete}
use rrev.Scheme.{Parser}
use rrev.Connection.Types.{ConnectionHdl}
use rrev.Connection.Types as ConnectionTypes
use rrev.Runtime.{Tokio, World, to_user, packets}
use rrev.Server.Types.{Server, ServerMessage, ServerEvent}
use rrev.Server.{handle_message, serve}

module _ {P : Parser} {tokio : Tokio P} where
  -- If the server takes three messages directly one after the other, a first and a second
  -- connection from an address that it does not list and then the close event of the first one,
  -- its list of connections is the one before them, the user is told of one connection that came
  -- and went, and nothing else is sent: neither handle is sent a message, and the second one is
  -- not listed.
  pub second_connection_lost :
      (s : Server P) (first second : ConnectionHdl P) (addr : SocketAddr) (w : World tokio)
      → get SocketAddr-discrete addr s.connections ≡ none
      → let (p, w') =
          serve s
            (ServerMessage.new_connection first addr
              ∷ ServerMessage.new_connection second addr
              ∷ ServerMessage.connection_event addr ConnectionTypes.ConnectionEvent.close
              ∷ [])
            w in
        (p.state.connections ≡ s.connections)
        × (packets w'.history
            ≡ to_user s.tx (ServerEvent.connection_close addr)
              ∷ to_user s.tx (ServerEvent.new_connection addr)
              ∷ packets w.history)
  unfolding serve handle_message
  second_connection_lost s first second addr w e = ground (
    arith,
    get_head SocketAddr-discrete addr first s.connections,
    erase_head SocketAddr-discrete addr first s.connections e,
    erase-none SocketAddr-discrete addr s.connections e,
  )
