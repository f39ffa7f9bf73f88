-- ===== src/Examples/TickerClient.antt =====
-- examples/ticker_client.rs: a client that sends an event every five seconds, and completes the
-- requests that it gets with their own payload.
use Prim.Native.String.{◌++◌}
use rrev.Prelude.{
  ℕ, zero, suc, ◌+◌, ◌%◌, ◌^◌, String, Option, none, some, List, [], ◌∷◌, ok, err, Async, pure,
  ◌>>=◌, ◌>>◌,
}
use rrev.Scheme.{string_parser}
use rrev.Connection.Types.{ConnectionHdl, ConnectionEvent}
use rrev.Connection.RequestHandle as RequestHandle
use rrev.Connection.ConnectionHdl as Handle
use rrev.Runtime.{Tokio, World, events_task, new_channel, spawn}
use rrev.Examples.{Exit, returned, panicked}

-- `count` is an `i32`; its bits are a number below this.
abbrev pub i32_mod : ℕ
i32_mod = 2 ^ 32

module _ {tokio : Tokio string_parser} where
  -- `receive_events` over what its channel brings. A close does not end it.
  unfoldable pub receive_events :
      List (ConnectionEvent string_parser) → Async (World tokio) (Unit {0})
  unfolding RequestHandle.complete
  receive_events [] = pure tt
  receive_events (ConnectionEvent.close ∷ es) = receive_events es
  receive_events (ConnectionEvent.event_message e ∷ es) = receive_events es
  receive_events (ConnectionEvent.request_message r ∷ es) = do
    RequestHandle.complete r (RequestHandle.get_request r)
    receive_events es

  -- The loop of `main` for a number of ticks: `none` if it goes on, and `returned` after `break`.
  -- `show` writes an `i32` from its bits.
  unfoldable pub ticks :
      (show : ℕ → String)
      → ConnectionHdl string_parser
      → ℕ
      → (count : ℕ) → Async (World tokio) (Option Exit)
  unfolding Handle.event
  ticks show client_hdl zero count = pure none
  ticks show client_hdl (suc n) count = do
    done ← Handle.event client_hdl ("count: " ++ show count)
    elim done [
      | err _ ↦ pure (some returned)
      | ok _ ↦ ticks show client_hdl n ((count + 1) % i32_mod)
    ]

  unfoldable pub main :
      (parse : String → Option String) → (show : ℕ → String) → ℕ → Async (World tokio) (Option Exit)
  unfolding new_channel Handle.connect spawn ticks
  main parse show n = elim (parse "ws://127.0.0.1:8080") [
    | none ↦ pure (some panicked)
    | some url ↦ do
      k ← new_channel
      client ← Handle.connect url (record { channel = k })
      elim client [
        | err _ ↦ pure (some panicked)
        | ok client_hdl ↦ do spawn (events_task (record { channel = k })); ticks show client_hdl n 0
      ]
  ]
