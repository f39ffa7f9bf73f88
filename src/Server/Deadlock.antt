-- ===== src/Server/Deadlock.antt =====
-- src/server.rs and src/server/connection_passer.rs: how a server, a connection and its passer come
-- to wait for each other.
use rrev.Prelude.{◌≡◌, ◌≢◌, refl, none, some, arith}
use rrev.Prelude.Map.{get}
use rrev.Channel.{SocketAddr, SocketAddr-discrete}
use rrev.Scheme.{Parser, Message}
use rrev.Connection.Types.{
  Connection, ConnectionHdl, ConnectionMessage, ConnectionEvent, InternalMessage,
}
use rrev.Connection.Waiting.{
  Tasks, ConnectionAt, SenderAt, ReceiverAt, takes_internal, tells, receiver_reports,
}
use rrev.Connection.Waiting as Waiting
use rrev.Connection.Deadlock.{fresh}
use rrev.Server.Types.{Server, ServerMessage}
use rrev.Server.Waiting.{Net, ServerAt, AcceptorAt, ListenerAt, PasserAt, pause}
use rrev.Server.Steps as Steps
use rrev.Server.Steps.{Step, Steps, rest, more}
use rrev.Server.Flood.{Flooded, Steps-Flooded}

pub some≢none {ℓ} : {A : Type ℓ} (a : A) → some a ≢ none
some≢none a h = cc h

module _ {P : Parser} where
  -- All tasks wait for messages, and no channel holds one.
  abbrev pub quiet : Server P → Connection P → Net P
  quiet s c = record {
    server = ServerAt.receiving s;
    acceptor = AcceptorAt.receiving;
    listener = ListenerAt.selecting;
    passer = PasserAt.receiving;
    tasks = fresh c;
    for_server = none;
    for_user = none;
    for_acceptor = none;
    for_listener = none;
    local = none;
  }

  sending_event :
      (s : Server P) (to : SocketAddr) (here : ConnectionHdl P) (e : P.OurEvent)
      → get SocketAddr-discrete to s.connections ≡ some here
      → pause s (ServerMessage.send_event to e)
        ≡ ServerAt.sending s to here (ConnectionMessage.event e)
  unfolding pause
  sending_event s to here e found = ground arith

  abbrev heard : P.TheirEvent → InternalMessage P
  heard x = InternalMessage.new_message (Message.event x)

module _ {P : Parser} (s : Server P) (c : Connection P) (here : ConnectionHdl P) (to : SocketAddr)
    (x y z : P.TheirEvent) (a b : P.OurEvent) (m : ServerMessage P) where
  -- The peer has sent three events and the user two, and `m` is on the way to the server.
  abbrev pub flooded : Net P
  flooded = record {
    server = pause s (ServerMessage.send_event to b);
    acceptor = AcceptorAt.receiving;
    listener = ListenerAt.selecting;
    passer = PasserAt.passing (ConnectionEvent.event_message x);
    tasks = record {
      connection = ConnectionAt.telling c (ConnectionEvent.event_message z);
      sender = SenderAt.receiving;
      receiver = ReceiverAt.reading;
      user = some (ConnectionMessage.event a);
      owner = some (ConnectionEvent.event_message y);
      inside = none;
      for_sender = none;
      for_receiver = none;
    };
    for_server = some m;
    for_user = none;
    for_acceptor = none;
    for_listener = none;
    local = none;
  }

  way_to_flooded :
      get SocketAddr-discrete to s.connections ≡ some here → Steps here to (quiet s c) flooded
  unfolding Waiting.pause
  way_to_flooded found =
      let w0 : Steps here to (quiet s c) (quiet s c) = rest in
      let w1 = more w0 (Steps.reads (heard x) refl) in
      let w2 = more w1 (Steps.link (Steps.works _ (receiver_reports _ (heard x) refl refl))) in
      let w3 = more w2 (Steps.link (Steps.works _ (takes_internal _ c (heard x) refl refl))) in
      let w4 = more w3 (Steps.link (Steps.works _ (tells _ c _ refl refl))) in
      let w5 = more w4 (Steps.link (Steps.passer_takes _ refl refl)) in
      let w6 = more w5 (Steps.reads (heard y) refl) in
      let w7 = more w6 (Steps.link (Steps.works _ (receiver_reports _ (heard y) refl refl))) in
      let w8 = more w7 (Steps.link (Steps.works _ (takes_internal _ c (heard y) refl refl))) in
      let w9 = more w8 (Steps.link (Steps.works _ (tells _ c _ refl refl))) in
      let w10 = more w9 (Steps.reads (heard z) refl) in
      let w11 = more w10 (Steps.link (Steps.works _ (receiver_reports _ (heard z) refl refl))) in
      let w12 = more w11 (Steps.link (Steps.works _ (takes_internal _ c (heard z) refl refl))) in
      let w13 = more w12 (Steps.calls (ServerMessage.send_event to a) refl) in
      let w14 = more w13 (Steps.server (Steps.takes s _ refl refl)) in
      let w15 =
        more w14 (Steps.server (Steps.delivers s to _ (sending_event s to here a found) refl)) in
      let w16 = more w15 (Steps.calls (ServerMessage.send_event to b) refl) in
      let w17 = more w16 (Steps.server (Steps.takes s _ refl refl)) in more w17 (Steps.calls m refl)

  -- If the peer of a connection, which the server lists under `to`, sends three events while the
  -- user sends two to it and makes one more call of any kind, which fills the server's channel,
  -- the tasks of a server can come from the start to where the server waits to send to the
  -- connection, the connection to tell its passer, and the passer to tell the server; and
  -- wherever the tasks, the user and the peer go from there, the three still wait.
  pub flood_deadlock :
      (o : Net P)
      → get SocketAddr-discrete to s.connections ≡ some here
      → Steps here to flooded o
      → Steps here to (quiet s c) flooded
        × Flooded here s to
            (ConnectionMessage.event b)
            c
            (ConnectionEvent.event_message z)
            (ConnectionEvent.event_message x)
            o
  flood_deadlock o found ss = (
    way_to_flooded found,
    Steps-Flooded ss (record {
      delivering = sending_event s to here b found;
      full = record { telling = refl; owner_full = some≢none _; user_full = some≢none _ };
      passing = refl;
      server_full = some≢none _;
    }),
  )
