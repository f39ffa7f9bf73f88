-- ===== src/Tests/TheNet.antt =====
-- Tests of the tasks of a server side by side: the theorems about them at concrete inputs.
use rrev.Prelude.{
  ℕ, ◌+◌, ◌*◌, length, ◌≡◌, ◌≢◌, ◌≤◌, ◌⊎◌, refl, some, [], ◌∷◌, ◌++◌, Bool, map, Result, ℕ_discrete,
}
use rrev.Prelude.Map.{get}
use rrev.Channel.{OneshotSender, SocketAddr, SocketAddr-discrete, IoError}
use rrev.Scheme.{string_parser}
use rrev.Error.{ListenAddrError}
use rrev.Runtime.{sent}
use rrev.Connection.Types.{ConnectionMessage, ConnectionEvent}
use rrev.Connection.Waiting.{
  Tasks, takes_external, closes_receiver, closes_sender, tells_end, pause, user_sends,
  rest as rest_link, more as more_link,
}
use rrev.Connection.Deadlock.{fresh}
use rrev.Connection.Settling.{Works, done, and_then}
use rrev.Connection.Halves.{Goes, OnSocket}
use rrev.Connection.Stuck.{Settled, Works-Settled}
use rrev.Server.Types.{Server, ServerMessage}
use rrev.Server.{handle_message}
use rrev.Server.Types.{AcceptorMessage}
use rrev.Server.Waits as Waits
use rrev.Server.Waits.{HeldUp, Moves}
use rrev.Server.Weight.{kept_by}
use rrev.Server.OwnSteps as OwnSteps
use rrev.Server.Settled as Server
use rrev.Server.Stuck.{OwnSteps-Settled}
use rrev.Server.Waiting as Waiting
use rrev.Server.Waiting.{Net, ServerAt, AcceptorAt, ListenerAt}
use rrev.Server.Steps as Steps
use rrev.Server.Steps.{rest, more}
use rrev.Server.Flood.{Flooded}
use rrev.Server.Stall.{Stalled}
use rrev.Server.Silence.{Unanswered}
use rrev.Server.Deadlock.{quiet, flooded, flood_deadlock}
use rrev.Server.StreamDeadlock.{crowded, silent, address_deadlock, close_deadlock}
use rrev.Server.Alive.{acceptor_outlives}
use rrev.Server.Pauses.{awaited, After, pause-handle_message}
use rrev.Tests.{start, here}
use rrev.Tests.OneConnection.{idle}
use rrev.Tests.TheServer.{there, hdl_at, empty}

-- A connection whose owner has told it to close, and the same after four steps of its task.
abbrev told_to_close : Tasks string_parser
told_to_close = record (fresh idle) { user = some ConnectionMessage.close }

closing-Works : (o : Tasks string_parser) × Works 4 told_to_close o
unfolding pause
closing-Works = (
  _,
  and_then (takes_external told_to_close idle ConnectionMessage.close refl refl) (
      and_then (closes_receiver _ idle refl refl) (
        and_then (closes_sender _ idle refl refl)
          (and_then (tells_end _ idle refl refl) (done _)))),
)

Works-Settled_example :
    (4 ≤ 48) × (Goes closing-Works.0 ⊎ (OnSocket closing-Works.0 ⊎ Settled closing-Works.0))
Works-Settled_example =
    Works-Settled idle
      (more_link _ _ _ (user_sends (fresh idle) ConnectionMessage.close refl) (rest_link _))
      closing-Works.1

abbrev one_here : Server string_parser
one_here = record empty { connections = (here, hdl_at 21) ∷ [] }

abbrev stuck : Net string_parser
stuck = flooded one_here idle (hdl_at 21) here "x" "y" "z" "a" "b" ServerMessage.close

-- A stream comes after all.
abbrev stuck_later : Net string_parser
stuck_later = record stuck { listener = ListenerAt.forwarding (record { handle = 9 }) there }

flood_deadlock_example :
    Steps.Steps (hdl_at 21) here (quiet one_here idle) stuck
    × Flooded
        (hdl_at 21)
        one_here
        here
        (ConnectionMessage.event "b")
        idle
        (ConnectionEvent.event_message "z")
        (ConnectionEvent.event_message "x")
        stuck_later
unfolding get SocketAddr-discrete ℕ_discrete
flood_deadlock_example =
    flood_deadlock one_here idle (hdl_at 21) here "x" "y" "z" "a" "b" ServerMessage.close
      stuck_later refl
      (more rest (Steps.listener (Steps.accepts (record { handle = 9 }) there refl)))

-- How the tasks came there, with the stream.
way_to_stuck : Steps.Steps (hdl_at 21) here (quiet one_here idle) stuck_later
unfolding get SocketAddr-discrete ℕ_discrete
way_to_stuck =
    let (way, _) =
      flood_deadlock one_here idle (hdl_at 21) here "x" "y" "z" "a" "b" ServerMessage.close stuck
        refl rest in
    more way (Steps.listener (Steps.accepts (record { handle = 9 }) there refl))

-- The listener can still hand the stream to the acceptor, and then no task goes on.
abbrev stuck_last : Net string_parser
stuck_last = record stuck {
  for_acceptor = some (AcceptorMessage.new_stream (record { handle = 9 }) there);
}

OwnSteps-Settled_example :
    (1 ≤ 36 * length (kept_by stuck_later.server) + 459)
    × (Moves (hdl_at 21) here stuck_last
        ⊎ (HeldUp stuck_last ⊎ Server.Settled (hdl_at 21) stuck_last))
    × ((j : ℕ) × (p : Net string_parser) × OwnSteps.OwnSteps (hdl_at 21) here j stuck_last p
        × Server.Settled (hdl_at 21) p)
OwnSteps-Settled_example = OwnSteps-Settled one_here idle way_to_stuck (
    OwnSteps.and_then (Waits.listener (Steps.forwards (record { handle = 9 }) there refl refl) refl)
      (OwnSteps.done stuck_last))

abbrev asker : OneshotSender (Result SocketAddr ListenAddrError)
asker = record { slot = 31 }

abbrev asked : OneshotSender (Result SocketAddr IoError)
asked = record { slot = 32 }

address_deadlock_example :
    let n =
      silent empty idle
        (hdl_at 21)
        (hdl_at 22)
        here
        there
        (record { handle = 9 })
        ServerMessage.close
        asker
        asked in
    Steps.Steps (hdl_at 21) here (quiet empty idle) n
    × Unanswered empty asker (hdl_at 22) there (record { handle = 9 }) there n
address_deadlock_example =
    address_deadlock empty idle (hdl_at 21) (hdl_at 22) here there (record { handle = 9 })
      ServerMessage.close asker asked _ rest

abbrev shutting : Net string_parser
shutting =
    crowded empty idle (hdl_at 21) (hdl_at 22) here there (record { handle = 9 })
      ServerMessage.close (ServerAt.closing_acceptor empty) ListenerAt.selecting

close_deadlock_example :
    Steps.Steps (hdl_at 21) here (quiet empty idle) shutting
    × Stalled (ServerAt.closing_acceptor empty) (hdl_at 22) there shutting
close_deadlock_example =
    close_deadlock empty idle (hdl_at 21) (hdl_at 22) here there (record { handle = 9 })
      ServerMessage.close shutting refl rest

-- The acceptor before and after the user has called.
abbrev patient : AcceptorAt string_parser
patient = AcceptorAt.receiving

acceptor_outlives_example : patient ≢ AcceptorAt.ended
acceptor_outlives_example =
    acceptor_outlives empty idle (hdl_at 21) here
      (record (quiet empty idle) { for_server = some ServerMessage.close })
      (more rest (Steps.calls ServerMessage.close refl)) refl

pause-handle_message_example :
    let m : ServerMessage string_parser = ServerMessage.new_connection (hdl_at 21) here in
    (b : Bool) × After (Waiting.pause empty m) b (handle_message empty m (start [])).0
    × ((handle_message empty m (start [])).1.history
        ≡ map (λ p. sent p b) (awaited (Waiting.pause empty m)) ++ [])
pause-handle_message_example =
    pause-handle_message empty (ServerMessage.new_connection (hdl_at 21) here) (start []) refl
