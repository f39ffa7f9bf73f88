-- ===== src/Tests/TheRegistry.antt =====
-- Tests of the server's list of connections and of its listen address.
use rrev.Prelude.{◌≡◌, Bool, true, false, [], ◌∷◌, Result, ok, err, go_on, ◌⊎◌}
use rrev.Channel.{OneshotSender, SocketAddr, IoError}
use rrev.Error.{ListenAddrError}
use rrev.Runtime.{sent, packets, answer_address, answer_local, to_listener}
use rrev.Server.Types.{ServerMessage, Listener, ListenerMessage}
use rrev.Server.{handle_message}
use rrev.Server.Listener as Listening
use rrev.Server.Addresses.{explained, address_comes_back}
use rrev.Tests.{scripted, start, here}
use rrev.Tests.TheServer.{empty}

abbrev socket_owner : Listener
socket_owner = record {
  rx = record { channel = 4 };
  acceptor_hdl = record { tx = record { channel = 3 } };
  socket = record { handle = 2 };
}

abbrev questioner : OneshotSender (Result SocketAddr ListenAddrError)
questioner = record { slot = 31 }

address_comes_back_example :
    let ((s', flow), w') =
      handle_message empty (ServerMessage.get_listen_address questioner) (start []) in
    (s' ≡ empty)
    × (flow ≡ go_on)
    × ((to : OneshotSender (Result SocketAddr IoError)) × (b b' : Bool) × (r : Result SocketAddr
          ListenAddrError)
        × (w'.history
            ≡ sent (answer_address questioner r) b'
              ∷ sent (to_listener empty.listener_hdl.tx (ListenerMessage.get_address to)) b
              ∷ [])
        × (packets
              (Listening.handle_message socket_owner
                (ListenerMessage.get_address to)
                (start [])).1.history
            ≡ answer_local to (ok here) ∷ [])
        × (((b ≡ false) × (r ≡ err ListenAddrError.send_error))
            ⊎ ((b ≡ true)
                × ((e : scripted.Env) × (r ≡ explained (scripted.answered_local to e).0)))))
address_comes_back_example = address_comes_back empty socket_owner questioner (start []) (start [])
