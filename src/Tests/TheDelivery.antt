-- ===== src/Tests/TheDelivery.antt =====
-- Tests of the way from the websocket to the user of a server.
use rrev.Prelude.{◌≡◌, refl, sym, ◌∙◌, String, Option, some, none, ok, List, [], ◌∷◌, ℕ_discrete}
use rrev.Prelude.Map.{get}
use rrev.Prelude.Prefix.{Prefix, said}
use rrev.Channel.{SocketAddr-discrete}
use rrev.Scheme.{string_parser, Message}
use rrev.Runtime.{Wire, packets}
use rrev.Connection.Types.{ConnectionEvent, Receiver}
use rrev.Connection.{Turn, internal, handle_turn, run_loop, run}
use rrev.Connection.Types.{InternalMessage}
use rrev.Connection.Receiver as Reader
use rrev.Connection.Receiver.{ReceiverTurn, from_ws}
use rrev.Server.Types.{ServerMessage, PassersServerHandle}
use rrev.Server as Servers
use rrev.Server.ConnectionPasser.{pass_messages}
use mathlib.Core.List.{Sublist}
use rrev.Prelude.{inl, inr, map, push_all, if_neg}
use rrev.Prelude.Prefix.{flat}
use rrev.Connection.Types.{ConnectionHdl-discrete}
use rrev.Scheme.{OurMessage}
use rrev.Connection.{external}
use rrev.Connection.Types.{ConnectionMessage, Sender, SenderMessage}
use rrev.Connection.Sender as Writer
use rrev.Connection.Writing.{texts, serialized}
use rrev.Connection.Sending.{out_calls}
use rrev.Server.Types.{Server}
use rrev.Server.OneAddress.{Only}
use rrev.Server.Sending.{written-Sublist}
use rrev.Server.Delivery.{sent_user, user-Prefix}
use rrev.Tests.{start, here}
use rrev.Tests.OneConnection.{idle, ask}
use rrev.Tests.TheServer.{there, empty, hdl_at}

-- A frame is an event, but for one text that is no message.
abbrev spoken : Wire string_parser
spoken = record {
  Frame = Option String;
  to_text = λ t. t;
  to_string = λ m. none;
  from_str = λ t. some (Message.event t);
}

abbrev ear : Receiver string_parser
ear = record {
  connection_handle = record { tx = record { channel = 3 } };
  rx = record { channel = 1 };
  ws_receiver = record { handle = 5 };
}

-- Two texts with a frame between them that is no text.
abbrev frames : List (ReceiverTurn spoken)
frames =
    from_ws (some (ok (some "a"))) ∷ from_ws (some (ok none)) ∷ from_ws (some (ok (some "b"))) ∷ []

abbrev event : String → Turn string_parser
event e = internal (InternalMessage.new_message (Message.event e))

-- The connection takes a request between the two events.
abbrev turns : List (Turn string_parser)
turns = event "a" ∷ ask "q" 21 ∷ event "b" ∷ []

abbrev events : List (ConnectionEvent string_parser)
events = ConnectionEvent.event_message "a" ∷ ConnectionEvent.event_message "b" ∷ []

-- An event of another connection comes between, and the second one has not come yet.
abbrev arrivals : List (ServerMessage string_parser)
arrivals =
    ServerMessage.connection_event there (ConnectionEvent.event_message "x")
    ∷ ServerMessage.connection_event here (ConnectionEvent.event_message "a")
    ∷ []

abbrev link : PassersServerHandle string_parser
link = record { tx = record { channel = 1 } }

user-Prefix_example :
    Prefix
      (said (sent_user here) (packets (Servers.run empty arrivals (start [])).1.history))
      (Message.event "a" ∷ Message.event "b" ∷ [])
unfolding Reader.run Reader.handle_turn run run_loop handle_turn pass_messages get
    SocketAddr-discrete ConnectionHdl-discrete ℕ_discrete
user-Prefix_example =
    user-Prefix spoken ear frames idle turns events link here empty arrivals (start []) (start [])
      (start []) (start []) refl refl refl refl ([], refl) ([], refl) (_, refl)

-- Every message is written as its payload.
abbrev loud : Wire string_parser
loud = record spoken {
  to_string = λ m. elim m [
    | Message.request r ↦ some r.payload
    | Message.reply r ↦ some r.payload
    | Message.event e ↦ some e
  ];
}

abbrev pen : Sender string_parser
pen = record {
  connection_hdl = record { tx = record { channel = 3 } };
  rx = record { channel = 2 };
  ws_sender = record { handle = 5 };
}

abbrev one_listed : Server string_parser
one_listed = record empty { connections = (here, hdl_at 21) ∷ [] }

here-Only : Only here (hdl_at 21) one_listed
unfolding get
here-Only a h = elim (SocketAddr-discrete here a) [
  | yes p ↦ sym p
  | no p ↦ cc (sym (if_neg (SocketAddr-discrete here a) p _ _) ∙ h)
]

-- The user asks for an event and a request, and for an event to another address.
abbrev wishes : List (ServerMessage string_parser)
wishes =
    ServerMessage.send_event here "a"
    ∷ ServerMessage.send_event there "z"
    ∷ ServerMessage.send_request here (record { slot = 21 }) "q"
    ∷ []

abbrev taken : List (Turn string_parser)
taken = external (ConnectionMessage.event "a") ∷ event "b" ∷ ask "q" 21 ∷ []

-- A reply comes between the two.
abbrev given : List (SenderMessage string_parser)
given =
    SenderMessage.message (Message.event "a")
    ∷ SenderMessage.message (Message.reply (record { id = 3; payload = "r" }))
    ∷ SenderMessage.message (Message.request (record { id = 0; payload = "q" }))
    ∷ []

written-Sublist_example :
    (out : List (OurMessage string_parser)) × (texts
        (Writer.run loud pen given (start [])).1.history
      ≡ push_all (serialized loud (map SenderMessage.message out)) [])
    × Sublist (flat out_calls out) (inr "a" ∷ inl "q" ∷ [])
unfolding Servers.close_all Servers.run Servers.serve Servers.handle_message run run_loop
    handle_turn get SocketAddr-discrete ConnectionHdl-discrete ℕ_discrete
written-Sublist_example =
    written-Sublist loud one_listed wishes here (hdl_at 21) idle taken pen given (start [])
      (start []) (start []) refl refl refl here-Only (tt, (tt, (tt, tt))) ([], refl) ([], refl)
