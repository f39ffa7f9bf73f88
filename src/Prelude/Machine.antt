-- ===== src/Prelude/Machine.antt =====
-- A machine that takes messages in order: what it comes to and what it does, for given outcomes of
-- what it does. The loops of the actors are compared with such machines.
use mathlib.Core.Path.{◌≡◌, ap, ◌∙◌, sym, subst}
use mathlib.Core.Bool.{Bool}
use mathlib.Core.List.{List, [], ◌∷◌, ◌++◌}
use native.Mathlib.Omega.{arith}
use rrev.Prelude.Control.{ControlFlow, go_on, stop}
use rrev.Prelude.Lists.{push_all, push_all-append}

-- What the machine has come to, with its deeds, oldest first.
pub record Story (V M E : Type 0) : Type 0 where
  pub last : V
  pub deeds : List E
  pub flow : ControlFlow
  pub unread : List M

-- How a message changes the state, what is done for it, and whether the machine goes on, for the
-- outcome of what is done.
pub record Machine (V M E : Type 0) : Type 0 where
  pub next : V → M → Bool → V
  pub does : V → M → Bool → List E
  pub verdict : M → Bool → ControlFlow

module _ {V M E : Type 0} (machine : Machine V M E) where
  -- The machine takes one message for each outcome, until it stops.
  abbrev pub tell : V → List M → List Bool → Story V M E
  tell v [] bs = record { last = v; deeds = []; flow = go_on; unread = [] }
  tell v (m ∷ ms) [] = record { last = v; deeds = []; flow = go_on; unread = m ∷ ms }
  tell v (m ∷ ms) (b ∷ bs) = elim (machine.verdict m b) [
    | go_on ↦
        let rest = tell (machine.next v m b) ms bs in
        record rest { deeds = machine.does v m b ++ rest.deeds }
    | stop ↦ record {
      last = machine.next v m b;
      deeds = machine.does v m b;
      flow = stop;
      unread = ms;
    }
  ]

  -- For some outcomes, the machine that starts at `v` with these messages ends like this, and its
  -- deeds, newest first, have come on top of `before`.
  abbrev pub Tells : V → List M → List E → V → List E → ControlFlow → List M → Type 0
  Tells v ms before last after flow unread =
      (bs : List Bool) × (last ≡ (tell v ms bs).last)
      × (after ≡ push_all (tell v ms bs).deeds before)
      × (flow ≡ (tell v ms bs).flow)
      × (unread ≡ (tell v ms bs).unread)

  tell-go_on :
      (v : V) (m : M) (ms : List M) (b : Bool) (bs : List Bool)
      → machine.verdict m b ≡ go_on
      → let rest = tell (machine.next v m b) ms bs in
        tell v (m ∷ ms) (b ∷ bs) ≡ record rest { deeds = machine.does v m b ++ rest.deeds }
  tell-go_on v m ms b bs e = ground arith

  tell-stop :
      (v : V) (m : M) (ms : List M) (b : Bool)
      → machine.verdict m b ≡ stop
      → tell v (m ∷ ms) (b ∷ [])
        ≡ record { last = machine.next v m b; deeds = machine.does v m b; flow = stop; unread = ms }
  tell-stop v m ms b e = ground arith

  Tells-go_on :
      (v : V) (m : M) (ms : List M) (b : Bool) (before : List E) (last : V) (after : List E)
      (flow : ControlFlow) (unread : List M)
      → machine.verdict m b ≡ go_on
      → Tells (machine.next v m b) ms (push_all (machine.does v m b) before) last after flow unread
      → Tells v (m ∷ ms) before last after flow unread
  Tells-go_on v m ms b before last after flow unread e
        (bs, same_last, same_deeds, same_flow, same_unread) =
      let step = tell-go_on v m ms b bs e in
      (
        b ∷ bs,
        same_last ∙ sym (ap (λ st. st.last) step),
        same_deeds
            ∙ sym (push_all-append (machine.does v m b) _ before)
            ∙ sym (ap (λ st. push_all st.deeds before) step),
        same_flow ∙ sym (ap (λ st. st.flow) step),
        same_unread ∙ sym (ap (λ st. st.unread) step),
      )

  -- The last message, after which the machine stops at `last`.
  pub Tells-stop :
      (v : V) (m : M) (ms : List M) (b : Bool) (before : List E) (last : V) (after : List E)
      → machine.verdict m b ≡ stop
      → last ≡ machine.next v m b
      → after ≡ push_all (machine.does v m b) before
      → Tells v (m ∷ ms) before last after stop ms
  Tells-stop v m ms b before last after e same_last same_deeds =
      let step = tell-stop v m ms b e in
      (
        b ∷ [],
        same_last ∙ sym (ap (λ st. st.last) step),
        same_deeds ∙ sym (ap (λ st. push_all st.deeds before) step),
        sym (ap (λ st. st.flow) step),
        sym (ap (λ st. st.unread) step),
      )

-- One message after which the machine goes on, from `v'` and with `mid`; it may then be given as
-- `machine'`.
pub Tells-then :
    {V M E : Type 0} (machine machine' : Machine V M E) (v v' : V) (m : M) (ms : List M) (b : Bool)
    (before mid : List E) (last : V) (after : List E) (flow : ControlFlow) (unread : List M)
    → machine.verdict m b ≡ go_on
    → machine' ≡ machine
    → v' ≡ machine.next v m b
    → mid ≡ push_all (machine.does v m b) before
    → Tells machine' v' ms mid last after flow unread
    → Tells machine v (m ∷ ms) before last after flow unread
Tells-then {V} {M} {E} machine machine' v v' m ms b before mid last after flow unread e same seen
      done later =
    let next : V = machine.next v m b in
    let made : List E = push_all (machine.does v m b) before in
    Tells-go_on machine v m ms b before last after flow unread e (
      subst (λ k. Tells k next ms made last after flow unread) same
        (subst (λ u. Tells machine' u ms made last after flow unread) seen
          (subst (λ d. Tells machine' v' ms d last after flow unread) done later)))
