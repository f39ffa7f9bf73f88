-- ===== src/Tests/TheBounds.antt =====
-- Tests of the ids of src/connection.rs at their bounds.
use rrev.Prelude.{◌≡◌, refl, some, [], ◌∷◌, ◌-◌, ℕ_discrete, arith}
use rrev.Prelude.Map.{get}
use rrev.Scheme.{string_parser}
use rrev.Connection.Types.{Connection}
use rrev.Connection.{usize_mod, run_loop}
use rrev.Connection.Requests.{reply_turn, never_overwritten}
use rrev.Tests.{start}
use rrev.Tests.OneConnection.{idle, ask}

-- The next id is the last one, and a request waits under the first.
abbrev last_id : Connection string_parser
last_id = record idle { next_id = usize_mod - 1; reply_map = (0, record { slot = 20 }) ∷ [] }

never_overwritten_example :
    let (p, w') = run_loop last_id (ask "a" 21 ∷ ask "b" 22 ∷ reply_turn 7 "?" ∷ []) (start []) in
    get ℕ_discrete 0 p.state.reply_map ≡ some (record { slot = 20 })
unfolding get ℕ_discrete
never_overwritten_example =
    never_overwritten 0 (record { slot = 20 }) (ask "a" 21 ∷ ask "b" 22 ∷ reply_turn 7 "?" ∷ [])
      last_id (start []) (omega arith) refl
