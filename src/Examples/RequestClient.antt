-- ===== src/Examples/RequestClient.antt =====
-- examples/request_client.rs: a client that makes one request.
use rrev.Prelude.{String, Option, none, some, ok, err, Async, pure, ◌>>=◌, ◌>>◌}
use rrev.Scheme.{string_parser}
use rrev.Runtime.{Tokio, World, new_channel}
use rrev.Connection.ConnectionHdl as Handle
use rrev.Examples.{Exit, returned, panicked}

module _ {tokio : Tokio string_parser} where
  -- `parse` is `url::Url::parse`. The duration is in seconds. The reply and the error are logged.
  unfoldable pub main : (parse : String → Option String) → Async (World tokio) Exit
  unfolding new_channel Handle.connect Handle.request_timeout
  main parse = elim (parse "ws://127.0.0.1:8080") [
    | none ↦ pure panicked
    | some url ↦ do
      n ← new_channel
      client ← Handle.connect url (record { channel = n })
      elim client [
        | err _ ↦ pure panicked
        | ok client_hdl ↦ do Handle.request_timeout client_hdl "test" 5; pure returned
      ]
  ]
