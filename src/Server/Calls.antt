-- ===== src/Server/Calls.antt =====
-- src/server/server_handle.rs: what a request with a timeout returns.
use rrev.Prelude.{ℕ, ◌≡◌, false, arith, map_err}
use rrev.Channel.{SocketAddr}
use rrev.Scheme.{Parser}
use rrev.Error.{TimeoutError}
use rrev.Server.Types.{ServerHandle, ServerMessage}
use rrev.Server.ServerHandle.{request, request_timeout}
use rrev.Runtime.{Tokio, World, to_server}
use rrev.Callers.{Caller, plain, timed, timeout-request}

module _ {P : Parser} {tokio : Tokio P} (hdl : ServerHandle P) (to : SocketAddr) where
  routed-plain :
      (q : P.OurRequest) (w : World tokio)
      → request hdl to q w ≡ plain (λ tx. to_server hdl.tx (ServerMessage.send_request to tx q)) w
  unfolding request plain
  routed-plain q w = ground arith

  routed-timed :
      (q : P.OurRequest) (duration : ℕ) (w : World tokio)
      → request_timeout hdl to q duration w
        ≡ timed (λ tx. to_server hdl.tx (ServerMessage.send_request to tx q)) duration w
  unfolding request_timeout timed
  routed-timed q duration w = ground arith

  abbrev server_caller : Caller P tokio
  server_caller = record {
    packet = λ q tx. to_server hdl.tx (ServerMessage.send_request to tx q);
    request = request hdl to;
    request_timeout = request_timeout hdl to;
    request_lem = routed-plain;
    request_timeout_lem = routed-timed;
  }

module _ {P : Parser} {tokio : Tokio P} where
  -- If the timeout does not fire, a request through the server with a timeout does what a request
  -- does, and wraps its error.
  pub routed_request_timeout :
      (hdl : ServerHandle P) (to : SocketAddr) (q : P.OurRequest) (duration : ℕ) (w : World tokio)
      → ((e : tokio.Env) → tokio.expired duration e ≡ (false, e))
      → request_timeout hdl to q duration w
        ≡ (map_err TimeoutError.request_error (request hdl to q w).0, (request hdl to q w).1)
  routed_request_timeout hdl to = timeout-request (server_caller hdl to)
