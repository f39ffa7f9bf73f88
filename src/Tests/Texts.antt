-- ===== src/Tests/Texts.antt =====
-- A text for each message of strings, for tests: its kind, its id in marks, and its payload.
use Prim.Native.Char.{code}
use Prim.Native.String.{[], ◌∷◌}
use rrev.Prelude.{
  ◌≡◌, refl, ap, ◌∙◌, ℕ, zero, suc, ◌+◌, String, Option, none, some, ite, ℕ_discrete, arith,
}
use rrev.Scheme.{string_parser, Message, OurMessage, TheirMessage}
use rrev.Runtime.{Wire}
use rrev.Peers.{Reads, Agree, read}

abbrev pub as_is : Reads string_parser string_parser
as_is = record { request = λ q. q; reply = λ r. r; event = λ e. e }

-- An id is as many marks, with one of another kind behind them.
abbrev mark : ℕ → String → String
mark zero p = "b" ∷ p
mark (suc n) p = "a" ∷ mark n p

abbrev unmark : ℕ → String → ℕ × String
unmark n [] = (n, [])
unmark n (c ∷ rest) =
    let more = unmark (suc n) rest in ite (ℕ_discrete (code c) b'a') more (n, rest)

unmark-mark : (n k : ℕ) (p : String) → unmark k (mark n p) ≡ (n + k, p)
unfolding ℕ_discrete
unmark-mark zero k p = ap (λ j. (j, p)) (omega arith)
unmark-mark (suc n) k p = unmark-mark n (suc k) p ∙ ap (λ j. (j, p)) (omega arith)

abbrev shown : OurMessage string_parser → String
shown (Message.request r) = "q" ∷ mark r.id r.payload
shown (Message.reply r) = "r" ∷ mark r.id r.payload
shown (Message.event e) = "e" ∷ e

abbrev parsed : String → Option (TheirMessage string_parser)
parsed [] = none
parsed (c ∷ rest) =
    let (id, payload) = unmark 0 rest in
    ite (ℕ_discrete (code c) b'e') (some (Message.event rest)) (
      ite (ℕ_discrete (code c) b'q')
        (some (Message.request (record { id = id; payload = payload })))
        (some (Message.reply (record { id = id; payload = payload }))))

-- Frames are texts.
abbrev pub plain : Wire string_parser
plain = record {
  Frame = String;
  to_text = λ t. some t;
  to_string = λ m. some (shown m);
  from_str = parsed;
}

parsed-shown : (m : OurMessage string_parser) → parsed (shown m) ≡ some (read as_is m)
unfolding ℕ_discrete
parsed-shown (Message.request r) =
    ap (λ u. some (Message.request (record { id = u.0; payload = u.1 })))
      (unmark-mark r.id 0 r.payload)
    ∙ ap (λ j. some (Message.request (record { id = j; payload = r.payload }))) (omega arith)
parsed-shown (Message.reply r) =
    ap (λ u. some (Message.reply (record { id = u.0; payload = u.1 })))
      (unmark-mark r.id 0 r.payload)
    ∙ ap (λ j. some (Message.reply (record { id = j; payload = r.payload }))) (omega arith)
parsed-shown (Message.event e) = refl

pub plain-Agree : Agree as_is plain plain
plain-Agree = record { text = shown; writes = λ m. refl; reads_back = parsed-shown }
