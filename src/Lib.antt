-- ===== src/Lib.antt =====
-- The Rust libp2p test node (rust-test-node): a node for experiments with GossipSub, which joins a
-- network of test nodes, publishes messages on request by HTTP, measures the latency of the
-- messages that it receives, and shows metrics to Prometheus.
--
-- The parts of the program and the files that model them:
-- Env: `get_peer_details` of rust-test-node/src/env.rs, the configuration `PeerConfig` from the host
--   name and the environment. Env/Checks, Env/Hostname and Env/Case have its theorems.
-- Metrics: `GossipSubMetrics` of rust-test-node/src/metrics.rs; Metrics/Interface is what it uses of
--   prometheus_client, Metrics/Registry its constructor `new`, Metrics/Health is about
--   `update_health`, Metrics/Counters and Metrics/Moves about the counting methods.
-- Receive: `create_message_handler` of rust-test-node/src/main.rs, and the map `MSG_SEEN`
--   (Receive/SeenMap). Receive/Counts follows mixed publications, Receive/Complete one publication,
--   Receive/Effects the panic and the effects of one message.
-- Publish: `publish_new_message` of rust-test-node/src/main.rs; Publish/Fragments, Publish/Loop and
--   Publish/Total are about the fragments, the loop and the whole function.
-- Delivery: what is published on one node and received on another; Delivery/Request begins
--   with the request.
-- Http: the handler of `POST /publish` in `start_http_server` of rust-test-node/src/main.rs. Http/Channel
--   has many handlers at once, with the lock, the channel of commands and the loop, as a step
--   relation; Http/Pending and Http/Invariant are about what holds between the steps,
--   Http/Progress, Http/Drain and Http/Ends about the steps that can be taken and their end; Http/Atomic is the service
--   that clients are promised, and Http/Refines relates the two.
-- MainLoop: the `select!` loop of `main` in rust-test-node/src/main.rs, one turn for each branch.
--   MainLoop/Events has the events of libp2p; MainLoop/Counting, MainLoop/Panics, MainLoop/Tick and
--   MainLoop/Topics have the theorems.
-- Connect: `resolve_address` and `connect_gossipsub_peers` of rust-test-node/src/main.rs;
--   Connect/Peers is about choosing, Connect/Resolve and Connect/Found about resolving, Connect/Dial
--   about dialling, Connect/Waiting about the waiting time, Connect/Joined, Connect/Joining and
--   Connect/Calm about the whole function.
-- MessageId: `msg_id_provider` of rust-test-node/src/main.rs; MessageId/Duplicates is about fragments with
--   one id.
-- Behaviour: `configure_gossipsub_params`, `build_behaviour` and their constants in
--   rust-test-node/src/main.rs.
-- Export: `start_metrics_server` and `store_metrics` of rust-test-node/src/env.rs; Export/Files is
--   about the files, Export/Times about the moments at which they are written.
-- Startup: `main` of rust-test-node/src/main.rs up to its loop; Startup/Ready is about what holds where
--   the loop begins, Startup/Reaches about when it is reached, Startup/Panics about when it stops
--   before, Startup/Life about start and loop together.
-- Prelude, Text, Word, Clock and Outcome are shared: lists, text and decimal numbers, machine
--   integers, the clock, and results with panics. Tests has runs at concrete inputs.
--
-- How the parts interact: the configuration gives the number of chunks to the HTTP handler and to the
-- main loop. The handler makes a command of a request; a turn of the loop hands the command to
-- `publish_new_message` and its answer back to the handler. A turn with a message of gossipsub
-- calls `create_message_handler`; a turn of the health interval sets the gauges.
--
-- State and its operations: a function that changes state takes it and returns it. A panic is the
-- value `panic` of `Run`, and it ends the node. Texts are lists of code points, bytes are numbers.
-- Machine integers are numbers or ℤ with the wrap-around of a release build written out; `usize` has
-- 64 bits.
--
-- What is not under this repository is a parameter: prometheus_client (Metrics/Interface),
-- byteorder (ByteOrder), gossipsub's `publish` (Gossipsub), libp2p's view of the network
-- (MainLoop/Events), the parser of addresses and dialling (Connect), gossipsub's builder and
-- `Behaviour` (Behaviour), the hasher and the cache of ids (MessageId), building the swarm,
-- subscribing and listening (Startup), the clock, the random permutations, name resolution, the
-- host name, the environment, the metrics encoder and the UTF-8 bytes of a text. Each law of an
-- interface states documented behaviour, and each interface has a value that meets it. A registered
-- metric is the way to read a field, since a clone of a prometheus_client metric shares its value
-- with the original.
--
-- Loops recur on the list that they go through, or on the rounds that are left. Decimal printing
-- has as fuel one more than the number, which has fewer digits than that. `resolve_address` may try
-- for ever outside Shadow; it goes through a list of attempts, and is `none` if they are used up.
-- The waiting loop of `connect_gossipsub_peers` goes through the readings of the clock in the same
-- way.
--
-- Not modelled: logging; routing, JSON and the sockets of the servers; the sixty seconds of sleep in
-- `main`, which change nothing; what the metrics hold that libp2p registers itself; failing
-- allocations of vectors up to `isize::MAX` bytes. The nodes in Go and Nim and the scripts for Shadow
-- are other programs.
pub mod Prelude
pub mod Text
pub mod Word
pub mod Outcome
pub mod Env
pub mod Metrics
pub mod ByteOrder
pub mod Clock
pub mod Receive
pub mod Gossipsub
pub mod Publish
pub mod Delivery
pub mod Http
pub mod MainLoop
pub mod Connect
pub mod Export
pub mod MessageId
pub mod Behaviour
pub mod Startup
mod Tests
