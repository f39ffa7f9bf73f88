-- ===== src/Examples/Ticks.antt =====
-- examples/ticker_client.rs: the events of the ticks, and the replies to requests, in order.
use Prim.Native.String.{◌++◌ as ◌^^◌}
use rrev.Prelude.{
  ℕ, zero, suc, ◌+◌, ◌%◌, ◌≤◌, ◌≡◌, refl, ap, ◌⊎◌, inl, inr, true, false, String, none, some, List,
  [], ◌∷◌, arith, push_all, Bool-cases,
}
use rrev.Scheme.{string_parser}
use rrev.Connection.Types.{ConnectionHdl, ConnectionMessage, ConnectionEvent, RequestHandle}
use rrev.Runtime.{Tokio, World, Packet, Entry, sent, send, to_connection, packets}
use rrev.Examples.{returned}
use rrev.Examples.TickerClient.{i32_mod, receive_events, ticks}
use rrev.Examples.Echoes.{reply_echo}

-- The events of a number of ticks, with the counts from `count` on.
abbrev pub counted :
    (ℕ → String) → ConnectionHdl string_parser → ℕ → ℕ → List (Packet string_parser)
counted show hdl zero count = []
counted show hdl (suc k) count =
    to_connection hdl.tx (ConnectionMessage.event ("count: " ^^ show count))
    ∷ counted show hdl k ((count + 1) % i32_mod)

-- The replies to the requests of a list of events.
abbrev pub replies : List (ConnectionEvent string_parser) → List (Packet string_parser)
replies [] = []
replies (ConnectionEvent.request_message r ∷ es) = reply_echo r ∷ replies es
replies (_ ∷ es) = replies es

module _ {tokio : Tokio string_parser} where
  ticks-sent :
      (show : ℕ → String) (hdl : ConnectionHdl string_parser) (n count : ℕ) (w : World tokio)
      → (send (to_connection hdl.tx (ConnectionMessage.event ("count: " ^^ show count))) w).0 ≡ true
      → ticks show hdl (suc n) count w
        ≡ ticks show hdl n
            ((count + 1) % i32_mod)
            (send (to_connection hdl.tx (ConnectionMessage.event ("count: " ^^ show count))) w).1
  unfolding ticks
  ticks-sent show hdl n count w done = ground arith

  ticks-lost :
      (show : ℕ → String) (hdl : ConnectionHdl string_parser) (n count : ℕ) (w : World tokio)
      → (send (to_connection hdl.tx (ConnectionMessage.event ("count: " ^^ show count))) w).0
        ≡ false
      → ticks show hdl (suc n) count w ≡ (
        some returned,
        (send (to_connection hdl.tx (ConnectionMessage.event ("count: " ^^ show count))) w).1,
      )
  unfolding ticks
  ticks-lost show hdl n count w gone = ground arith

  -- In a number of ticks the ticker sends the counts one after the other, each once, and it stops
  -- early only after an event that could not be sent.
  pub ticks-counted :
      (show : ℕ → String) (hdl : ConnectionHdl string_parser) (n count : ℕ) (w : World tokio)
      → let (exit, w') = ticks show hdl n count w in
        (k : ℕ) × (packets w'.history ≡ push_all (counted show hdl k count) (packets w.history))
        × (((exit ≡ none) × (k ≡ n))
            ⊎ ((exit ≡ some returned)
                × (k ≤ n)
                × ((p : Packet string_parser) × (h : List (Entry string_parser)) × (w'.history
                      ≡ sent p false ∷ h))))
  unfolding send
  ticks-counted show hdl zero count w = unfold ticks in (zero, refl, inl (refl, refl))
  ticks-counted show hdl (suc n) count w =
      let p = to_connection hdl.tx (ConnectionMessage.event ("count: " ^^ show count)) in
      elim (Bool-cases (send p w).0) [
        | inl done ↦
            let (k, out, end) = ticks-counted show hdl n ((count + 1) % i32_mod) (send p w).1 in
            rw (ticks-sent show hdl n count w done) (
              suc k,
              out,
              elim end [
                | inl (e, same) ↦ inl (e, ap suc same)
                | inr (e, le, why) ↦ inr (e, omega arith, why)
              ],
            )
        | inr gone ↦
            rw (ticks-lost show hdl n count w gone)
              (suc zero, refl, inr (refl, omega arith, (p, w.history, ground arith)))
      ]

  receive_events-request :
      (r : RequestHandle string_parser) (es : List (ConnectionEvent string_parser))
      (w : World tokio)
      → receive_events (ConnectionEvent.request_message r ∷ es) w
        ≡ receive_events es (send (reply_echo r) w).1
  unfolding receive_events
  receive_events-request r es w = refl

  receive_events-close :
      (es : List (ConnectionEvent string_parser)) (w : World tokio)
      → receive_events (ConnectionEvent.close ∷ es) w ≡ receive_events es w
  unfolding receive_events
  receive_events-close es w = refl

  receive_events-event :
      (e : String) (es : List (ConnectionEvent string_parser)) (w : World tokio)
      → receive_events (ConnectionEvent.event_message e ∷ es) w ≡ receive_events es w
  unfolding receive_events
  receive_events-event e es w = refl

  -- The ticker answers every request with the payload of the request, once and in order, whether or
  -- not the replies can be sent, and also after a close; it sends nothing else for its events.
  pub receive_events-replies :
      (es : List (ConnectionEvent string_parser)) (w : World tokio)
      → packets (receive_events es w).1.history ≡ push_all (replies es) (packets w.history)
  unfolding send
  receive_events-replies [] w = unfold receive_events in refl
  receive_events-replies (ConnectionEvent.close ∷ es) w =
      rw (receive_events-close es w) (receive_events-replies es w)
  receive_events-replies (ConnectionEvent.event_message e ∷ es) w =
      rw (receive_events-event e es w) (receive_events-replies es w)
  receive_events-replies (ConnectionEvent.request_message r ∷ es) w =
      rw (receive_events-request r es w) (receive_events-replies es (send (reply_echo r) w).1)
