-- ===== src/Tests/TheListener.antt =====
-- Tests of src/server/listener.rs, and the theorem about it at a concrete input.
use rrev.Prelude.{ℕ, ◌≡◌, refl, true, false, some, List, [], ◌∷◌, ok, err}
use rrev.Channel.{TcpStream}
use rrev.Server.Types.{Listener, ListenerMessage}
use rrev.Server.Listener as Listener
use rrev.Server.Listener.{ListenerTurn, received, accepted}
use rrev.Server.Forwarding.{Forwards, forwarded, run-Forwards}
use rrev.Tests.{start, here}

abbrev gate : Listener
gate = record {
  rx = record { channel = 4 };
  acceptor_hdl = record { tx = record { channel = 3 } };
  socket = record { handle = 2 };
}

abbrev stream : ℕ → TcpStream
stream n = record { handle = n }

-- The second stream finds the acceptor gone.
abbrev knocks : List ListenerTurn
knocks =
    accepted (ok (stream 6, here))
    ∷ accepted (err (record { code = 24 }))
    ∷ accepted (ok (stream 7, here))
    ∷ received (some ListenerMessage.close)
    ∷ []

forwarded-knocks :
    forwarded (Listener.run gate knocks (start (true ∷ false ∷ []))).1.history
    ≡ (stream 7, here) ∷ (stream 6, here) ∷ []
unfolding Listener.run Listener.handle_turn
forwarded-knocks = refl

run-Forwards_example :
    let ((flow, rest), w') = Listener.run gate knocks (start (true ∷ false ∷ [])) in
    Forwards gate knocks [] flow rest w'.history
run-Forwards_example = run-Forwards gate knocks (start (true ∷ false ∷ []))
