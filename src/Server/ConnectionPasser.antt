-- ===== src/Server/ConnectionPasser.antt =====
-- src/server/connection_passer.rs: the task that tags a connection's events with its address.
use rrev.Prelude.{List, [], ◌∷◌, ok, err, Async, pure, ◌>>=◌}
use rrev.Channel.{SocketAddr}
use rrev.Scheme.{Parser}
use rrev.Connection.Types.{ConnectionEvent}
use rrev.Server.Types.{PassersServerHandle}
use rrev.Server.Handles.{new_connection_event}
use rrev.Runtime.{Tokio, World}

module _ {P : Parser} {tokio : Tokio P} where
  -- The list is what the connection sends until it drops its sender. The result is what is left
  -- unread when the server is gone.
  unfoldable pub pass_messages :
      List (ConnectionEvent P)
      → PassersServerHandle P
      → SocketAddr
      → Async (World tokio) (List (ConnectionEvent P))
  unfolding new_connection_event
  pass_messages [] server_hdl addr = pure []
  pass_messages (event ∷ rest) server_hdl addr = do
    done ← new_connection_event server_hdl event addr
    elim done [ err _ ↦ pure rest | ok _ ↦ pass_messages rest server_hdl addr ]
