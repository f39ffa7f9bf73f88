-- ===== src/Connection/RequestHandle.antt =====
-- src/scheme/request_handle.rs: a request of the other side, to be answered by the user.
use rrev.Prelude.{Result, Async, pure, ◌>>=◌, map_err}
use rrev.Scheme.{Parser, Request, Message}
use rrev.Error.{SendError}
use rrev.Connection.Types.{RequestHandle, SenderHdl}
use rrev.Connection.SenderHdl
use rrev.Runtime.{Tokio, World}

abbrev pub new : {P : Parser} → Request P.TheirRequest → SenderHdl P → RequestHandle P
new request sender_hdl = record { request = request; sender_hdl = sender_hdl }

abbrev pub get_request : {P : Parser} → RequestHandle P → P.TheirRequest
get_request hdl = hdl.request.payload

module _ {P : Parser} {tokio : Tokio P} where
  unfoldable pub complete :
      RequestHandle P → P.OurReply → Async (World tokio) (Result (Unit {0}) SendError)
  unfolding SenderHdl.send
  complete hdl reply = do
    done ←
        SenderHdl.send hdl.sender_hdl
          (Message.reply (record { id = hdl.request.id; payload = reply }))
    pure (map_err (λ _. SendError.send_error) done)
