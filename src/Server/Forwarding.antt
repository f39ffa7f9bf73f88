-- ===== src/Server/Forwarding.antt =====
-- src/server/listener.rs: what becomes of the tcp streams that the listener accepts.
use rrev.Prelude.{
  ◌≡◌, refl, ap, ◌∙◌, ◌⊎◌, false, none, some, List, [], ◌∷◌, ◌++◌, ok, err, ControlFlow, go_on,
  stop, arith, inl, inr, push_all, ControlFlow-cases,
}
use rrev.Channel.{TcpStream, SocketAddr}
use rrev.Scheme.{Parser}
use rrev.Runtime.{Tokio, World, Entry, sent, to_acceptor}
use rrev.Server.Types.{Listener, ListenerMessage, AcceptorMessage}
use rrev.Server.Listener.{ListenerTurn, received, accepted, handle_turn, run}

-- The streams that the turns bring.
abbrev pub arrivals : List ListenerTurn → List (TcpStream × SocketAddr)
arrivals [] = []
arrivals (accepted (ok a) ∷ ts) = a ∷ arrivals ts
arrivals (_ ∷ ts) = arrivals ts

module _ {P : Parser} where
  -- The streams that went to the acceptor, newest first.
  abbrev pub forwarded : List (Entry P) → List (TcpStream × SocketAddr)
  forwarded [] = []
  forwarded (sent (to_acceptor _ (AcceptorMessage.new_stream stream addr)) _ ∷ h) =
      (stream, addr) ∷ forwarded h
  forwarded (_ ∷ h) = forwarded h

  -- Why the listener ended at a turn: it was told to, its handles are gone, or the acceptor did not
  -- take the stream that the turn brought.
  abbrev pub Ended : Listener → ListenerTurn → List (Entry P) → Type 0
  Ended l t after =
      (t ≡ received (some ListenerMessage.close))
      ⊎ ((t ≡ received none)
          ⊎ ((stream : TcpStream) × (addr : SocketAddr) × (t ≡ accepted (ok (stream, addr)))
              × ((h : List (Entry P)) × (after
                    ≡ sent (to_acceptor l.acceptor_hdl.tx (AcceptorMessage.new_stream stream addr))
                        false
                      ∷ h))))

  -- The turns that were taken brought all that was forwarded, and if the loop ended, the last of
  -- them ended it.
  abbrev pub Forwards :
      Listener
      → List ListenerTurn
      → List (Entry P)
      → ControlFlow
      → List ListenerTurn
      → List (Entry P)
      → Type 0
  Forwards l ts before flow rest after =
      (taken : List ListenerTurn) × (forwarded after ≡ push_all (arrivals taken) (forwarded before))
      × (((flow ≡ go_on) × ((ts ≡ taken) × (rest ≡ [])))
          ⊎ ((flow ≡ stop)
              × ((first : List ListenerTurn) × (t : ListenerTurn) × (taken ≡ first ++ t ∷ [])
                  × (ts ≡ first ++ t ∷ rest)
                  × Ended l t after)))

module _ {P : Parser} {tokio : Tokio P} where
  run-go_on :
      (l : Listener) (t : ListenerTurn) (ts : List ListenerTurn) (w : World tokio)
      → (handle_turn l t w).0 ≡ go_on
      → run l (t ∷ ts) w ≡ run l ts (handle_turn l t w).1
  unfolding run
  run-go_on l t ts w e = ground arith

  run-stop :
      (l : Listener) (t : ListenerTurn) (ts : List ListenerTurn) (w : World tokio)
      → (handle_turn l t w).0 ≡ stop
      → run l (t ∷ ts) w ≡ ((stop, ts), (handle_turn l t w).1)
  unfolding run
  run-stop l t ts w e = ground arith

  forwarded-handle_turn :
      (l : Listener) (t : ListenerTurn) (ts : List ListenerTurn) (w : World tokio)
      → push_all (arrivals ts) (forwarded (handle_turn l t w).1.history)
        ≡ push_all (arrivals (t ∷ ts)) (forwarded w.history)
  unfolding handle_turn
  forwarded-handle_turn l (received none) ts w = refl
  forwarded-handle_turn l (received (some ListenerMessage.close)) ts w = refl
  forwarded-handle_turn l (received (some (ListenerMessage.get_address tx))) ts w = refl
  forwarded-handle_turn l (accepted (ok (stream, addr))) ts w = refl
  forwarded-handle_turn l (accepted (err _)) ts w = refl

  handle_turn-Ended :
      (l : Listener) (t : ListenerTurn) (w : World tokio)
      → (handle_turn l t w).0 ≡ stop
      → Ended l t (handle_turn l t w).1.history
  unfolding handle_turn
  handle_turn-Ended l (received none) w e = inr (inl refl)
  handle_turn-Ended l (received (some ListenerMessage.close)) w e = inl refl
  handle_turn-Ended l (received (some (ListenerMessage.get_address tx))) w e = cc
  handle_turn-Ended l (accepted (ok (stream, addr))) w e =
      inr (inr (stream, addr, refl, (w.history, ground arith)))
  handle_turn-Ended l (accepted (err _)) w e = cc

  -- The listener's task forwards every stream that it accepts to the acceptor, each once and in
  -- order, also after a failed accept, and leaves turns untaken only if it was told to close, its
  -- handles were gone, or the acceptor did not take the last stream.
  pub run-Forwards :
      (l : Listener) (ts : List ListenerTurn) (w : World tokio)
      → let ((flow, rest), w') = run l ts w in Forwards l ts w.history flow rest w'.history
  run-Forwards l [] w = unfold run in ([], refl, inl (refl, (refl, refl)))
  run-Forwards l (t ∷ ts) w =
      let w' : World tokio = (handle_turn l t w).1 in
      elim (ControlFlow-cases (handle_turn l t w).0) [
        | inl e ↦
            let (taken, all, end) = run-Forwards l ts w' in
            rw (run-go_on l t ts w e) (
              t ∷ taken,
              all ∙ forwarded-handle_turn l t taken w,
              elim end [
                | inl (f, (same, none_left)) ↦ inl (f, (ap (λ l. t ∷ l) same, none_left))
                | inr (f, (first, last, parts, whole, why)) ↦
                    inr (f, (t ∷ first, last, ap (λ l. t ∷ l) parts, ap (λ l. t ∷ l) whole, why))
              ],
            )
        | inr e ↦ rw (run-stop l t ts w e) (
          t ∷ [],
          forwarded-handle_turn l t [] w,
          inr (refl, ([], t, refl, refl, handle_turn-Ended l t w e)),
        )
      ]
