-- ===== src/Lib.antt =====
-- HermesMQ: a verification model of the replicated message queue.
--
-- The queue is the application state machine of a Raft cluster: every replica applies the same
-- requests in log order, so what a request does is a function of the request and the state. The
-- model is that function and the parts around it, translated from the Rust sources.
--
-- Types        crates/hermesmq-core/src/types.rs and raft.rs: messages, `AppRequest`, `AppResponse`
-- Limits       crates/hermesmq-core/src/queue.rs: the constants, `check_name`, `check_consumer`
-- Group        queue.rs: `Lease`, `GroupState` and its methods, and what `ack`, `nack` and `poll` do
--              to a group; the children state the invariant and prove what each method does
-- Topic        queue.rs: `TopicState`, retention, `reclaim`, the expiry of groups, `commit`
-- Produce      queue.rs: `produce_one` with its dedup table
-- Poll         queue.rs: `poll`, the selection by priority with reserved slots, and the leases
-- Queue        queue.rs: `Queue`, `apply`, the checks of requests, the queries
--              Queue.Report the counts it reports, Queue.Compat the first format of the state
-- Validate     queue.rs: `Queue::validate` and `normalize`
-- Tracking     crates/hermesmq-core/src/client.rs: `SubTracking` of a subscription
-- Store        crates/hermesmq-core/src/storage.rs: the tables of the database
-- Log          crates/hermesmq-core/src/engine/log_store.rs: the Raft log, in memory and on the disk,
--              and the thread that writes it
-- Snapshot     crates/hermesmq-core/src/engine/state_machine.rs: the queue with its position in the
--              log, and its snapshots
-- Recovery     crates/hermesmq-core/src/engine/mod.rs: `recover_consistency`
-- Frame        crates/hermesmq-core/src/frame.rs: frames on a byte stream
-- Limiter      client.rs: `RateLimiter`, with its `f64` in Limiter.Float
-- Client       client.rs: the client port, with the messages of crates/hermesmq-proto/proto/hermesmq.proto.
--              Client has the answers and the checks, Client.Batcher and Client.Acks the two batchers and
--              the notifiers, Client.Polling `handle_poll`, Client.Requests `handle_request`,
--              Client.Connection `handle_client`, Client.Subscription `handle_subscribe`; the other
--              children prove what they do
-- Secret       crates/hermesmq-core/src/lib.rs: `secret_eq`
-- Peer         crates/hermesmq-core/src/engine/network.rs: the port between the nodes, and its client
-- Http         crates/hermesmq-core/src/http.rs: the path of a request, and the answers
-- Map          the standard library's `BTreeMap` and `BTreeSet`, as lists in key order
-- Ord          the orders of the keys
-- Prelude      shared names, tests, lists and `saturating_add`
-- Tests        runs at concrete requests, and the theorems at them
--
-- A method that changes `self` returns the new value. A string is the list of its bytes. A `u64` is a
-- natural number; `saturating_add` is written out, and the theorems that need the counters to stay
-- below 2^64 say so. A `while` loop that removes an entry in each round is a recursion on the list,
-- or takes as many rounds as there are entries (`drain_acked`), which the invariant shows to be enough.
-- `for` loops are recursions on the list. The binary heap of `poll` is the list of its entries from
-- the top; the order in which Rust iterates over it is unspecified, and the sort that follows makes
-- it immaterial. `t.messages[&offset]` panics on a missing key; the model returns a placeholder there,
-- and `IsAvailable` in Poll.Selection shows that every selected key is present. The text of a refusal
-- is a constructor with the numbers that the text prints.
--
-- Raft calls `apply_entries` with the committed entries; it calls `apply` of the queue for each. A
-- snapshot of the queue goes to the database and comes back through `validate`. The log reaches the
-- database through the queue of the flusher's jobs. The flusher takes a batch, writes it and removes it
-- from memory in three steps, between which appends and readers come; `try_get_log_entries` reads the
-- disk and the memory at two moments, without a common lock, and misses an entry that the flusher moves
-- in between (`missed_entry` in Tests/Disks). `get_log_state` reads at several moments too;
-- `read_committed` is modelled at one, though it also reads the disk and the memory apart. redb,
-- postcard and the types of openraft are parameters: a table has its entries in key order, and an encoding decodes what it encoded. A flush
-- takes the outcome of its write as an argument; other failures of the database are not modelled.
-- `truncate` and `purge` of the log are modelled from the moment when their barrier is done.
--
-- The loop of `read_body` in Frame takes as many rounds as bytes are wanted, since each reads one at
-- least; the round trip of a frame shows that they are enough.
--
-- A call to a peer sends and reads whole frames, with their limit of 64 MiB. Otherwise a
-- port is modelled without its sockets and tasks: a connection is the list of the frames that it
-- brings, a channel the list of what it holds, a loop that waits runs over the list of its rounds, and
-- the reader and the loop of a subscription are one sequence of events, in any order. What openraft, the
-- clocks and the network return is in the events or is an argument. The write of a request to Raft is a
-- function to its outcome; the theorems on it ask only that an outcome is a failure or what the queue
-- answers. The loop of `handle_poll` gets at most 1501 rounds, since a wait is at most 300 s and a round
-- waits 200 ms unless it is notified. The rate limiter counts in f64; Limiter.Float has the finite ones
-- that are not negative, with the rounding of each operation.
--
-- Not modelled: the listeners with their limits on connections, the options of sockets, the semaphores
-- and capacities that bound what is under way, the printing of HTTP answers, the generated protocol code,
-- and the command line.
pub mod Prelude
pub mod Ord
pub mod Map
pub mod Types
pub mod Limits
pub mod Group
pub mod Topic
pub mod Produce
pub mod Poll
pub mod Queue
pub mod Validate
pub mod Tracking
pub mod Store
pub mod Log
pub mod Snapshot
pub mod Recovery
pub mod Frame
pub mod Limiter
pub mod Secret
pub mod Peer
pub mod Http
pub mod Client
mod Tests
