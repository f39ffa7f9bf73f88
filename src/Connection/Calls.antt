-- ===== src/Connection/Calls.antt =====
-- src/connection/connection_hdl.rs: what the calls of the user's handle return.
use rrev.Prelude.{ℕ, ◌≡◌, Bool, true, false, ◌∷◌, err, arith, map_err, ◌⊎◌}
use rrev.Channel.{OneshotSender}
use rrev.Scheme.{Parser}
use rrev.Error.{RequestError, TimeoutError}
use rrev.Connection.Types.{ConnectionHdl, ConnectionMessage, Answer}
use rrev.Connection.ConnectionHdl.{received, request, request_timeout}
use rrev.Runtime.{Tokio, World, sent, to_connection}
use rrev.Callers.{Caller, plain, timed, timeout-request, timeout-SentOnce}

module _ {P : Parser} {tokio : Tokio P} (hdl : ConnectionHdl P) where
  request-plain :
      (q : P.OurRequest) (w : World tokio)
      → request hdl q w ≡ plain (λ tx. to_connection hdl.tx (ConnectionMessage.request q tx)) w
  unfolding request plain
  request-plain q w = ground arith

  request_timeout-timed :
      (q : P.OurRequest) (duration : ℕ) (w : World tokio)
      → request_timeout hdl q duration w
        ≡ timed (λ tx. to_connection hdl.tx (ConnectionMessage.request q tx)) duration w
  unfolding request_timeout timed
  request_timeout-timed q duration w = ground arith

  abbrev connection_caller : Caller P tokio
  connection_caller = record {
    packet = λ q tx. to_connection hdl.tx (ConnectionMessage.request q tx);
    request = request hdl;
    request_timeout = request_timeout hdl;
    request_lem = request-plain;
    request_timeout_lem = request_timeout-timed;
  }

module _ {P : Parser} {tokio : Tokio P} where
  -- If the timeout does not fire, a request with a timeout does what a request does, and wraps its
  -- error.
  request_timeout-request :
      (hdl : ConnectionHdl P) (q : P.OurRequest) (duration : ℕ) (w : World tokio)
      → ((e : tokio.Env) → tokio.expired duration e ≡ (false, e))
      → request_timeout hdl q duration w
        ≡ (map_err TimeoutError.request_error (request hdl q w).0, (request hdl q w).1)
  request_timeout-request hdl = timeout-request (connection_caller hdl)

module _ {P : Parser} {tokio : Tokio P} where
  -- A request with a timeout is sent at most once. It is not sent only if the call returns
  -- `Timeout`; where it is sent and arrives, the call returns `Timeout` or what came back on the
  -- oneshot that was sent with it, and where it does not arrive, a send error.
  pub request_timeout_sends :
      (hdl : ConnectionHdl P) (q : P.OurRequest) (duration : ℕ) (w : World tokio)
      → let (r, w') = request_timeout hdl q duration w in
        ((r ≡ err TimeoutError.timeout) × (w'.history ≡ w.history))
        ⊎ ((tx : OneshotSender (Answer P)) × (b : Bool) × (w'.history
              ≡ sent (to_connection hdl.tx (ConnectionMessage.request q tx)) b ∷ w.history)
            × (((b ≡ false) × (r ≡ err (TimeoutError.request_error RequestError.send_error)))
                ⊎ ((b ≡ true)
                    × ((r ≡ err TimeoutError.timeout)
                        ⊎ ((e : tokio.Env) × (r
                              ≡ map_err TimeoutError.request_error
                                  (received (tokio.answered tx e).0)))))))
  request_timeout_sends hdl = timeout-SentOnce (connection_caller hdl)
