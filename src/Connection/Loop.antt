-- ===== src/Connection/Loop.antt =====
-- src/connection.rs, `run`: its loop unrolled by one turn, and its end.
use rrev.Prelude.{
  ◌≡◌, refl, sym, List, [], ◌∷◌, ◌++◌, go_on, stop, arith, inl, inr, ControlFlow-cases,
}
use mathlib.Core.List.{append_assoc}
use rrev.Scheme.{Parser}
use rrev.Runtime.{Tokio, World}
use rrev.Connection.Types.{Connection}
use rrev.Connection.{Turn, Progress, handle_turn, finish, run_loop, run}

-- The task has ended, and `us` is in what it has not taken.
abbrev pub Stopped : {P : Parser} → List (Turn P) → Progress P → Type 0
Stopped {P} us p = (p.flow ≡ stop) × (rest : List (Turn P)) × (p.unread ≡ rest ++ us)

module _ {P : Parser} {tokio : Tokio P} where
  pub run_loop-go_on :
      (c : Connection P) (t : Turn P) (ts : List (Turn P)) (w : World tokio)
      → (handle_turn c t w).0.1 ≡ go_on
      → run_loop c (t ∷ ts) w ≡ run_loop (handle_turn c t w).0.0 ts (handle_turn c t w).1
  unfolding run_loop
  run_loop-go_on c t ts w e = ground arith

  pub run_loop-stop :
      (c : Connection P) (t : Turn P) (ts : List (Turn P)) (w : World tokio)
      → (handle_turn c t w).0.1 ≡ stop
      → run_loop c (t ∷ ts) w ≡ (
        record { state = (handle_turn c t w).0.0; flow = stop; unread = ts },
        (handle_turn c t w).1,
      )
  unfolding run_loop
  run_loop-stop c t ts w e = ground arith

  pub run-go_on :
      (c : Connection P) (ts : List (Turn P)) (w : World tokio)
      → (run_loop c ts w).0.flow ≡ go_on
      → run c ts w ≡ run_loop c ts w
  unfolding run
  run-go_on c ts w e = ground arith

  pub run-stop :
      (c : Connection P) (ts : List (Turn P)) (w : World tokio)
      → let (p, w') = run_loop c ts w in
        p.flow ≡ stop
        → run c ts w ≡ (record p { state = (finish p.state w').0 }, (finish p.state w').1)
  unfolding run
  run-stop c ts w e = ground arith

  -- The loop does not get past a message on which it stops, wherever that stands, and takes nothing
  -- after it.
  pub run_loop-stops :
      (c : Connection P) (ts us : List (Turn P)) (t : Turn P) (w : World tokio)
      → ((c' : Connection P) (w' : World tokio) → (handle_turn c' t w').0.1 ≡ stop)
      → Stopped us (run_loop c (ts ++ t ∷ us) w).0
  run_loop-stops c [] us t w h = rw (run_loop-stop c t us w (h c w)) (refl, [], refl)
  run_loop-stops c (s ∷ ts) us t w h = elim (ControlFlow-cases (handle_turn c s w).0.1) [
    | inl e ↦
        rw (run_loop-go_on c s (ts ++ t ∷ us) w e)
          (run_loop-stops (handle_turn c s w).0.0 ts us t (handle_turn c s w).1 h)
    | inr e ↦
        rw (run_loop-stop c s (ts ++ t ∷ us) w e)
          (refl, ts ++ t ∷ [], sym (append_assoc ts (t ∷ []) us))
  ]
