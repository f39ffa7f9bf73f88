-- ===== src/Callers.antt =====
-- src/connection/connection_hdl.rs and src/server/server_handle.rs: what the two handles that make
-- requests have in common.
use rrev.Prelude.{
  ℕ, ◌≡◌, ◌⊎◌, inl, inr, Bool, true, false, ◌∷◌, Result, err, Async, pure, ◌>>=◌, arith, map_err,
  Bool-cases, if◌then◌else◌,
}
use rrev.Channel.{OneshotSender}
use rrev.Scheme.{Parser}
use rrev.Error.{RequestError, TimeoutError}
use rrev.Connection.Types.{Answer}
use rrev.Connection.ConnectionHdl.{received}
use rrev.Runtime.{Tokio, World, Packet, sent, send, new_channel, ask}

module _ {P : Parser} {tokio : Tokio P} where
  -- A request as one message, made from the oneshot for its reply.
  unfoldable pub plain : (OneshotSender (Answer P) → Packet P) → Async (World tokio) (Answer P)
  unfolding new_channel send ask
  plain call = do
    n ← new_channel
    done ← send (call (record { slot = n }))
    if done
        then (do r ← ask (tokio.answered (record { slot = n })); pure (received r))
        else pure (err RequestError.send_error)

  -- The same, where a timeout may fire at either wait.
  unfoldable pub timed :
      (OneshotSender (Answer P) → Packet P)
      → ℕ
      → Async (World tokio) (Result P.TheirReply TimeoutError)
  unfolding new_channel send ask
  timed call duration = do
    n ← new_channel
    early ← ask (tokio.expired duration)
    elim early [
      | true ↦ pure (err TimeoutError.timeout)
      | false ↦ do
        done ← send (call (record { slot = n }))
        elim done [
          | false ↦ pure (err (TimeoutError.request_error RequestError.send_error))
          | true ↦ do
            late ← ask (tokio.expired duration)
            elim late [
              | true ↦ pure (err TimeoutError.timeout)
              | false ↦ do
                r ← ask (tokio.answered (record { slot = n }))
                pure (map_err TimeoutError.request_error (received r))
            ]
        ]
    ]

-- A handle that makes requests: the message of a request, the two calls, and what they come to.
pub record Caller (P : Parser) (tokio : Tokio P) : Type 0 where
  pub packet : P.OurRequest → OneshotSender (Answer P) → Packet P
  pub request : P.OurRequest → Async (World tokio) (Answer P)
  pub request_timeout : P.OurRequest → ℕ → Async (World tokio) (Result P.TheirReply TimeoutError)
  pub request_lem : (q : P.OurRequest) (w : World tokio) → request q w ≡ plain (packet q) w
  pub request_timeout_lem :
      (q : P.OurRequest) (duration : ℕ) (w : World tokio)
      → request_timeout q duration w ≡ timed (packet q) duration w

module _ {P : Parser} {tokio : Tokio P} where
  timed-plain :
      (call : OneshotSender (Answer P) → Packet P) (duration : ℕ) (w : World tokio)
      → ((e : tokio.Env) → tokio.expired duration e ≡ (false, e))
      → timed call duration w
        ≡ (map_err TimeoutError.request_error (plain call w).0, (plain call w).1)
  unfolding plain timed
  timed-plain call duration w never =
      let n = tokio.fresh w.env in
      ground (arith, never n.1, never (tokio.deliver (call (record { slot = n.0 })) n.1).1)

  -- How a request with a timeout ends, and what it sends.
  abbrev pub SentOnce :
      (OneshotSender (Answer P) → Packet P)
      → World tokio
      → Result P.TheirReply TimeoutError × World tokio
      → Type 0
  SentOnce call w (r, w') =
      ((r ≡ err TimeoutError.timeout) × (w'.history ≡ w.history))
      ⊎ ((tx : OneshotSender (Answer P)) × (b : Bool) × (w'.history ≡ sent (call tx) b ∷ w.history)
          × (((b ≡ false) × (r ≡ err (TimeoutError.request_error RequestError.send_error)))
              ⊎ ((b ≡ true)
                  × ((r ≡ err TimeoutError.timeout)
                      ⊎ ((e : tokio.Env) × (r
                            ≡ map_err TimeoutError.request_error
                                (received (tokio.answered tx e).0)))))))

  timed-SentOnce :
      (call : OneshotSender (Answer P) → Packet P) (duration : ℕ) (w : World tokio)
      → SentOnce call w (timed call duration w)
  unfolding timed
  timed-SentOnce call duration w =
      let n = tokio.fresh w.env in
      let tx : OneshotSender (Answer P) = record { slot = n.0 } in
      let waited = tokio.expired duration n.1 in
      let done = tokio.deliver (call tx) waited.1 in
      let late = tokio.expired duration done.1 in
      elim (Bool-cases waited.0) [
        | inl e ↦ inl (ground arith, ground arith)
        | inr e ↦ inr (
          tx,
          done.0,
          ground arith,
          elim (Bool-cases done.0) [
            | inl d ↦ inr (
              d,
              elim (Bool-cases late.0) [
                | inl l ↦ inl (ground arith)
                | inr l ↦ inr (late.1, ground arith)
              ],
            )
            | inr d ↦ inl (d, ground arith)
          ],
        )
      ]

module _ {P : Parser} {tokio : Tokio P} (k : Caller P tokio) where
  pub timeout-request :
      (q : P.OurRequest) (duration : ℕ) (w : World tokio)
      → ((e : tokio.Env) → tokio.expired duration e ≡ (false, e))
      → k.request_timeout q duration w
        ≡ (map_err TimeoutError.request_error (k.request q w).0, (k.request q w).1)
  timeout-request q duration w never =
      rw (k.request_timeout_lem q duration w, k.request_lem q w)
        (timed-plain (k.packet q) duration w never)

  pub timeout-SentOnce :
      (q : P.OurRequest) (duration : ℕ) (w : World tokio)
      → SentOnce (k.packet q) w (k.request_timeout q duration w)
  timeout-SentOnce q duration w =
      rw (k.request_timeout_lem q duration w) (timed-SentOnce (k.packet q) duration w)
