-- ===== src/Error.antt =====
-- src/error.rs and src/server/error.rs: the errors, and the texts that `Display` writes.
use Prim.Native.String.{◌++◌}
use rrev.Prelude.{String}
use rrev.Channel.{IoError}

pub data SendError : Type 0 where
  send_error : SendError

pub data RequestError : Type 0 where
  send_error recv_error canceled : RequestError

pub data TimeoutError : Type 0 where
  request_error : RequestError → TimeoutError
  timeout : TimeoutError

pub data ListenAddrError : Type 0 where
  io : IoError → ListenAddrError
  send_error recv_error : ListenAddrError

pub data ClientsError : Type 0 where
  send_error recv_error : ClientsError

-- The five `fmt` functions, each with the name of its type.
unfoldable pub fmt_send_error : SendError → String
fmt_send_error SendError.send_error = "There was a problem sending the message."

unfoldable pub fmt_request_error : RequestError → String
fmt_request_error RequestError.send_error = "There was a problem sending the request."
fmt_request_error RequestError.recv_error = "There was a problem receiving the reply."
fmt_request_error RequestError.canceled = "The request was canceled before it could be completed."

unfoldable pub fmt_timeout_error : TimeoutError → String
unfolding fmt_request_error
fmt_timeout_error timeout = "Timeout before request could be completed."
fmt_timeout_error (request_error r) = fmt_request_error r

-- `show` is the text of an io error.
unfoldable pub fmt_listen_addr_error : (show : IoError → String) → ListenAddrError → String
fmt_listen_addr_error show (io e) = "Io error getting listen address: " ++ show e
fmt_listen_addr_error show ListenAddrError.send_error = "There was a problem sending the message."
fmt_listen_addr_error show ListenAddrError.recv_error =
    "There was a problem receiving the address from the server."

unfoldable pub fmt_clients_error : ClientsError → String
fmt_clients_error ClientsError.send_error = "Problem sending get clients message to the server."
fmt_clients_error ClientsError.recv_error = "Problem receiving the reply from the server."
