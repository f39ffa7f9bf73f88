-- ===== src/Tests/TheTrials.antt =====
-- Tests of the test modules: a bench for them, and two runs.
use rrev.Prelude.{◌≡◌, refl, true, none, some, String, [], ◌∷◌, ok}
use rrev.Prelude.Map.{Map, get, contains_key}
use rrev.Scheme.{Message}
use rrev.Connection.Writing.{texts}
use rrev.Trials.{Bench, String-discrete}
use rrev.Trials.OfConnection.{reply_of, respond, respond_all}
use rrev.Trials.OfListener.{check_get_addr}
use rrev.Tests.{start, here, scripted}

-- Frames are texts, and a request and its reply have the payload as their text.
abbrev bench : Bench scripted
bench = record {
  wire = record {
    Frame = String;
    to_text = λ f. some f;
    to_string = λ m. elim m [
      | Message.request r ↦ some r.payload
      | Message.reply r ↦ some r.payload
      | Message.event e ↦ some e
    ];
    from_str = λ t. some (reply_of 0 t);
  };
  is_text = λ _. true;
  shown = λ f. f;
  parse = λ t. some t;
  addr_text = λ _. "127.0.0.1:8080";
  ip_text = λ _. "127.0.0.1";
  accept = λ _ e. (ok (record { handle = 3 }, here), e);
  next = λ _ e. (none, e);
  close = λ _ e. (ok tt, e);
  push = λ _ _ e. (ok tt, e);
  recv = λ _ e. (none, e);
  start = λ _ e. (tt, e);
  port_text = λ _. "8080";
  addr_not_available = λ _. true;
  bytes = λ _. [];
  from_utf8 = λ _. none;
  connect_tcp = λ _ e. (ok (record { handle = 4 }), e);
  write_all = λ _ _ e. (ok tt, e);
  read_exact = λ _ _ e. (ok [], e);
}

abbrev table : Map String String
table = ("q", "A") ∷ ("p", "B") ∷ []

-- Two questions, and one that is in no table: the client panics there.
respond_all-table :
    let (r, w') =
      respond_all bench
        (record { handle = 6 })
        table
        (ok "p" ∷ ok "q" ∷ ok "?" ∷ ok "p" ∷ [])
        (start []) in
    (r ≡ none) × (texts w'.history ≡ "A" ∷ "B" ∷ [])
unfolding respond_all respond get contains_key String-discrete
respond_all-table = (refl, refl)

-- The listener of the scripted runtime answers with the address on which the test insists.
check_get_addr-passes : (check_get_addr bench (start [])).0 ≡ some tt
unfolding check_get_addr
check_get_addr-passes = refl
