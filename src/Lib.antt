-- ===== src/Lib.antt =====
-- Hiway: typed event streams with bounded retention, backpressure and a framed transport.
--
-- Paths are from the repository's root.
--
-- The program. A stream (hiway/src/local.rs) keeps the last values that its senders published in a
-- ring and gives each subscription a cursor; required subscriptions hold senders back, the others
-- are told of a gap when the ring laps them. A value that leaves the process has metadata
-- (hiway/src/metadata.rs) and may be framed by a fixed header (hiway/src/wire.rs). The transport
-- (hiway/src/transport) carries one event contract over a byte link: a deterministic protocol
-- (transport/protocol.rs) asks a backend for effects on three lanes, the backend reports inputs, and
-- the backend's slots (transport/operation.rs) name each operation until it has ended. The
-- protocol reports what happened to the bounded history of its connection
-- (transport/accountability.rs). Every use of a stream in shared storage (hiway/src/alloc_local.rs),
-- of a Unix link (hiway/src/unix.rs) or of a transport is authorized by a grant (hiway/src/grant.rs):
-- a node of a tree with permissions by event, pools of counters that leases are taken from, and a
-- state word that counts the operations under way until a revocation cuts them off.
--
-- Files.
--   Prelude: results with panics, machine words, lists, byte buffers.
--   Event: EventId::from_name and Delivery::follows of hiway/src/event.rs.
--   Errors: the error types of hiway/src/error.rs.
--   Static: State of hiway/src/local.rs. Static.antt has the state and subscribe, send_now, recv_now,
--   close and the receiver's drop; Static/Calls makes them steps of one state. Static/Log is
--   the log of publications that the ring is a window of.
--   Schema: validate_schema and validate_evolution of hiway/src/schema.rs.
--   Grant: hiway/src/grant.rs. Grant.antt has the limits, rights and permissions and partition.
--   Grant/Admission is the state word of one node with enter_mode's updates of it, the drop of an
--   operation and the bit of revoke, as atomic steps of any threads. Grant/Charge is one pool: the
--   loop of charge with its roll-back, and Lease::drop; Grant/Charge/Threads runs any number of these
--   loops interleaved at each counter. Grant/Tree has the nodes of a scope in a list, an Arc being an
--   index, with is_revoked, check and enter_mode; below it stand Leases (charge and the drop of
--   leases), Restrict (restrict), Revoke (the future of revoke, from its first poll to its end) and
--   Runs (sequences of calls on the grants of a new scope).
--   Dynamic: the stream of hiway/src/alloc_local.rs. Dynamic.antt has its state with
--   subscribe, close_stream and what maintain and the receiver's drop do under each of their locks,
--   Dynamic/Calls commit, try_recv and the parts of reserve, Dynamic/Work the sections of maintain,
--   reserve and the receiver's drop, and Dynamic/Runs any number of calls with their sections
--   interleaved. What the lock, the grants and their pools answer is an argument of each section.
--   Unix: hiway/src/unix.rs. Unix.antt has the limits and the header of a link and its history,
--   Unix/Credit a round of each loop, the sockets' reads and writes being arguments and results, and
--   Unix/Credit/Rounds an exporting and an importing end with the frames and credits between them.
--   Metadata: the origin, hop budget and key of hiway/src/metadata.rs.
--   Wire: EnvelopeHeader::encode and decode of hiway/src/wire.rs.
--   Transport/Operation, Transport/Records, Transport/Accountability: the files of the same names of
--   hiway/src/transport (Records stands in accountability.rs); Transport/Contract: the contract,
--   errors and sizes of transport/mod.rs.
--   Transport/Frame: encode_frame of transport/mod.rs, with the codec of the application as a parameter.
--   Transport/Reservation: hiway/src/transport/grant.rs, and reserve_resources of
--   hiway/src/resources.rs.
--   Transport/Protocol: hiway/src/transport/protocol.rs. Parts has the lanes, effects, inputs and
--   stages; Protocol.antt the state, new and effect; Progress the method progress, an arm at a time;
--   Transition the methods transition and input. The arrays by lane are records with a field for
--   each lane.
--
-- State is passed explicitly: an operation of the source that takes `&mut self` returns the new
-- state beside its result. A call that would panic returns `panic`. Numbers are natural numbers;
-- where the source adds with a check, or can wrap, that is written out at the width of the source,
-- and usize has 64 bits; the subtractions of the protocol's effect wrap around below 0.
-- Bytes are natural numbers below 256, where a statement needs that it says so.
-- Waiting for a lock is left out: what runs under one use of the lock of a stream is atomic, and a
-- try_lock that fails is an argument.
-- The data passed in buffers is an argument of the inputs, so that statements about runs hold for
-- every peer and every backend, the ones that break their contract among them.
--
-- Fuel. The loop of is_revoked over the parents of a node gets one unit more than the index of the node,
-- which is enough because a node is made after its parent; without fuel it answers nothing. The loop of revoke over the nodes below
-- a node gets 2 ^ n units for n nodes, which is enough because the children of a node are made after
-- it, each once. The loops of retire_consumed and reserve have their bounds in the
-- source. The other loops run over lists or byte strings.
--
-- Not modelled: wakers, futures and the waiter slots of hiway/src/local.rs; in alloc_local.rs the
-- registry of streams, the waiter count and the futures; in grant.rs the registration of streams
-- for notification and the wake-ups; transforms and links, which adapt application code; in unix.rs
-- the selection of tasks and the construction of links, and hiway-uring, which call the kernel; the
-- procedural macros; Display texts.
pub mod Prelude
pub mod Event
pub mod Errors
pub mod Metadata
pub mod Wire
pub mod Schema
pub mod Grant
pub mod Static
pub mod Transport
pub mod Dynamic
pub mod Unix
