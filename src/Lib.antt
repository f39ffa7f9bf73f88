-- ===== src/Lib.antt =====
-- A verification library for rrev, an asynchronous request and reply library over websockets.
--
-- The program. Each connection is three tasks: src/connection.rs gives requests their ids and
-- keeps the oneshots that their replies go to, src/connection/sender.rs writes the websocket, and
-- src/connection/receiver.rs reads it. They talk over channels: the connection sends messages to
-- the sender and a close to both, and both report to the connection over its internal channel. The
-- owner of a connection has a handle (src/connection/connection_hdl.rs) and a channel of events. A
-- client (src/client.rs) is the owner of one connection. A server is four kinds of tasks:
-- src/server/listener.rs accepts tcp streams and hands them to src/server/acceptor.rs, which
-- upgrades them, starts a connection on each, and gives its handle to src/server.rs; a passer
-- (src/server/connection_passer.rs) takes the events of one connection to the server under the
-- address of the peer. The server keeps the handles by address, passes the events to its user, and
-- takes the requests of its user (src/server/server_handle.rs) to the connections. Three programs
-- in examples use the library: a server that echoes, a client with one request, and a client that
-- ticks.
--
-- The files. Scheme: src/parser.rs and src/scheme/internal. Error: src/error.rs and
-- src/server/error.rs. Connection/Types and Server/Types: the structs and enums. Connection, and
-- in it SenderHdl, ReceiverHdl, InternalHdl, RequestHandle (src/scheme/request_handle.rs),
-- ConnectionHdl (with `connect` of src/client.rs), Sender and Receiver: the operations of the Rust
-- types of these names. Server, and in it Handles (the acceptor's and the passers' handles),
-- ServerHandle, ConnectionPasser, Acceptor (with both its handles) and Listener (with its handle;
-- `ListenerHandle::new` is `new_handle`, `Acceptor::new` is `new_acceptor`): likewise. A function
-- has the name of the Rust function; where one Rust function is split, the parts are
-- `handle_turn`, `run_loop` or `serve`, `finish`, `close_connections` and `close_all` of the `run`
-- loops, `cancel_keys` of `cancel_requests`, `open_connection` of `accept_stream`, `handle_frame`
-- and `fatal` of `handle_ws_message`, `report` of `Sender::send`, and `received` of `request`. The
-- field `data` is `payload`. The other files of Connection and Server hold proofs: Ledger, Loop,
-- Answers and Closing (the oneshots), Refinement (one turn), Machine (the loop), Requests and
-- WireIds (ids), Stops (the end of the loop), Reading and Writing (the halves), Calls (the
-- handles), Forwarding (the listener), Addresses and Queries (the queries), Refinement (one
-- message), Machine (the loop), Registry, Clients, SameAddress and Shutdown (the list of
-- connections), Delivery and Sending (the way from the websocket to the user, and back),
-- OneAddress (what Sending needs), Ending (what nobody else hears at the end of `run`), Wiring
-- (how tasks are joined), Accepting (the acceptor) and Starting (how a server starts), and those
-- that the paragraph on waiting names. Examples has a file for each of the programs, in which
-- `handle_event` is the body of the loop of the echo server, and `ticks` is that of the ticker for
-- a number of ticks; their proofs are in Examples/Echoes and Examples/Ticks. Trials has the test
-- modules of the source files: OfConnection, OfReceiver, OfSender, OfClient, OfServer and
-- OfListener, with what they share in Trials itself. In these `send_text`, `respond`,
-- `respond_all`, `send_all`, `turn` and `turns` are bodies and loops of the helpers `send_to`,
-- `responsive_client`, `client` and `server`, and `start`, `connect_client`, `only_client` and
-- `accept_ws` are lines that several tests repeat. Callers is the interface of the two handles
-- that make requests, which Connection/Calls and Server/Calls fill. Prelude holds shared helpers,
-- with prefixes of what was sent in Prelude/Prefix, machines that loops are compared with in
-- Prelude/Machine, and maps as lists of pairs in Prelude/Map. Channel has tokens for the values of
-- other packages that the code only passes on.
--
-- The environment. Runtime has the parameter `Tokio`, which stands for tokio, tungstenite, the
-- network and all other tasks: it decides each send, each write, what a oneshot brings back, and
-- whether a timeout fires, and in which order a `HashMap` is traversed, from an environment that
-- may depend on all that went before; that a traversal meets each entry once is `Traverses`.
-- `Wire` stands for serde_json and the text of a frame. In Examples `parse` stands for
-- `Url::parse`, and `show` for how an `i32` is written. In Trials `Bench` stands for what the
-- tests ask of other packages besides: sockets, frames, texts of addresses, and what the channels
-- of a test bring. Nothing is assumed of them but where a theorem says so. A task is a function of
-- a `World`, which has the environment and the history of what the task did, newest first. A `run`
-- takes the list of the messages that its channels bring, in the order in which `recv` or
-- `select!` takes them, and says which of them it left; every order that `select!` can take is
-- such a list, and the theorems are about all lists. Where the list of Sender, Acceptor,
-- ConnectionPasser or Server ends, `recv` gives `None`; the list of a Connection or a Receiver may
-- be a part of what comes. Loops are recursion on the list, so there is no fuel.
--
-- Bounds. `usize` has 64 bits, and `next_id += 1` wraps around, as in a release build; a debug
-- build panics there; `count += 1` of the ticker likewise wraps around at 32 bits. A theorem that
-- needs distinct ids says that they do not run out.
--
-- Waiting. In a `run` a send is one step that ends, with success or not. That it waits while the
-- channel, of capacity 1, is full, is modelled in Connection/Waiting for the three tasks of a
-- connection, and in Server/Waiting, Server/TaskSteps and Server/Steps for the server's task, the
-- acceptor and the listener with the passer and the three tasks of one connection: where a task
-- may wait, and the steps that it can take there. A write or a close of the websocket and the
-- handshake of the acceptor wait for the peer: that they end is a step of its own (`Answer`,
-- `Handshake`), which nothing but the peer brings about. Connection/Deadlock, Connection/Stuck,
-- Server/Deadlock, Server/StreamDeadlock, Server/Alive, Server/Inside and Server/Stuck are about
-- these steps, with measures and invariants in Connection/Settling, Connection/OneClose,
-- Connection/Halves, Server/Flood, Server/Stall, Server/Silence, Server/Query (the query of the
-- address), Server/Listening, Server/Keeping, Server/Weight and Server/OwnSteps, and the places
-- where tasks stand in Server/Waits, Server/Settled and Server/Standing, and Server/Pauses is
-- about how they agree with the handlers. A send of the server to another of its connections ends
-- at any time, with success or not. Peers puts the halves of two connections together, one at each
-- end of a websocket, and Peers/RoundTrip adds the handlers of a server.
--
-- What is not modelled: that a task may be dropped at an `.await` but for the timeouts, the time
-- between the ticks, the log messages and `dbg!`, and the derived traits but the equality of
-- messages that a test uses. The declarations of modules and the build files have no code to
-- model.
pub mod Prelude
pub mod Scheme
pub mod Channel
pub mod Error
pub mod Runtime
pub mod Connection
pub mod Server
pub mod Callers
pub mod Peers
pub mod Examples
pub mod Tests
pub mod Trials
