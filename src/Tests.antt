-- ===== src/Tests.antt =====
-- A runtime for tests: sends succeed or fail as a script says, and succeed when it is at its end.
pub mod OneConnection
pub mod Streams
pub mod TheServer
pub mod TheListener
pub mod Together
pub mod TheNet
pub mod ThePrograms
pub mod TheBounds
pub mod TheDelivery
pub mod TheRegistry
pub mod Texts
pub mod TheRoundTrip
pub mod TheTrials
use rrev.Prelude.{refl, ℕ, ◌+◌, Bool, true, false, none, some, ok, List, [], ◌∷◌}
use rrev.Channel.{SocketAddr}
use rrev.Scheme.{string_parser}
use rrev.Runtime.{Traverses, Tokio, World}

pub record Script : Type 0 where
  pub outcomes : List Bool
  pub next : ℕ

abbrev pub play : Script → Bool × Script
play s = elim s.outcomes [ [] ↦ (true, s) | b ∷ rest ↦ (b, record s { outcomes = rest }) ]

abbrev pub here : SocketAddr
here = record { ip = 2130706433; port = 8080 }

abbrev pub scripted : Tokio string_parser
scripted = record {
  Env = Script;
  deliver = λ _ s. play s;
  write = λ _ _ s. (none, s);
  shut = λ _ s. s;
  fresh = λ s. (s.next, record s { next = s.next + 1 });
  answered = λ _ s. (none, s);
  answered_address = λ _ s. (none, s);
  answered_clients = λ _ s. (none, s);
  answered_local = λ _ s. (some (ok here), s);
  expired = λ _ s. (false, s);
  traverse = λ m s. (m, s);
  upgrade = λ t s. (ok (record { handle = t.handle }), s);
  connect = λ _ s. (ok (record { handle = 1 }), s);
  bind = λ _ s. (ok (record { handle = 2 }), s);
  local_addr = λ _ s. (ok here, s);
}

pub scripted-Traverses : Traverses scripted
scripted-Traverses = record { each_once = λ dec m _ d. record { distinct = d; agree = λ k. refl } }

abbrev pub start : List Bool → World scripted
start bs = record { env = record { outcomes = bs; next = 10 }; history = [] }
