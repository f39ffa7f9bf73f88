-- ===== src/Scheme.antt =====
-- src/parser.rs and src/scheme/internal: the six payload types and the messages on the wire.
use rrev.Prelude.{ℕ, String}

-- The trait `Parser`; what it asks of the types besides (`Serialize`, `Clone`, …) is in `Wire`.
pub record Parser : Type 1 where
  pub OurRequest : Type 0
  pub OurReply : Type 0
  pub OurEvent : Type 0
  pub TheirRequest : Type 0
  pub TheirReply : Type 0
  pub TheirEvent : Type 0

abbrev pub string_parser : Parser
string_parser = record {
  OurRequest = String;
  OurReply = String;
  OurEvent = String;
  TheirRequest = String;
  TheirReply = String;
  TheirEvent = String;
}

-- The field `data` is `payload`.
pub record Request (T : Type 0) : Type 0 where
  pub id : ℕ
  pub payload : T

pub record Reply (T : Type 0) : Type 0 where
  pub id : ℕ
  pub payload : T

pub data Message (Req Rep Event : Type 0) : Type 0 where
  request : Request Req → Message Req Rep Event
  reply : Reply Rep → Message Req Rep Event
  event : Event → Message Req Rep Event

-- What we send, and what the other side sends.
abbrev pub OurMessage : Parser → Type 0
OurMessage P = Message P.OurRequest P.OurReply P.OurEvent

abbrev pub TheirMessage : Parser → Type 0
TheirMessage P = Message P.TheirRequest P.TheirReply P.TheirEvent
