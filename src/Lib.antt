-- ===== src/Lib.antt =====
-- Verification of the network, policy and transfer core of BEY, a platform of distributed
-- collaboration.
--
-- The parts and how they interact. Tokens (src/crates/bey-net/src/token.rs) are what nodes
-- exchange. The transport engine (engine.rs) opens a session, which the state machine
-- (state_machine.rs) follows; it sends tokens from a priority queue (priority_queue.rs) as the
-- flow controller (flow_control.rs) allows, cuts large data into streams of chunks (stream.rs),
-- hands what arrives to a buffered receiver (receiver.rs) and has handlers serve it (the router
-- of token.rs). The policy engine (src/crates/bey-transport/src/policy_engine.rs) decides what
-- a request may do. The transfer queue (src/crates/bey-file-transfer/src/transfer_queue.rs)
-- schedules file transfers, whose progress a tracker follows (progress_tracker.rs). The plugin
-- manager (src/crates/bey-plugin/src) starts and stops plugins in the order of their
-- dependencies and passes them the events of its event bus. The clipboard
-- (src/crates/bey-storage/src/clipboard.rs) merges the entries of other devices. Errors are
-- values of the crate src/crates/error.
--
-- Which file models what, each from the source file that its first lines name:
--   Base             shared helpers: tests on numbers, lists, HashMap, machine words, error values
--   Net/StateMachine handle_event and its tables; Relation, Invariant and Handshake are proofs
--   Net/Engine/Session start_server, connect (connect_to), disconnect (close); Opening is proofs
--   Net/Engine/Crypto encrypt_token, decrypt_token, derive_master_key; Sealing is proofs
--   Net/Engine/Sending send_to, send_urgent, send_large_file, send_with_flow_control (poll),
--     send_token, acknowledge and two background tasks; Stalling is proofs
--   Net/Engine/Receiving receive_token, receive, receive_blocking and
--     start_auto_receive_loop; Echoing is proofs
--   Net/Engine/Devices the table of devices: discovery, authentication, clean-up, queries and
--     connect_to_device; Discovering and Strangers are proofs
--   Net/Metrics      the metrics; Percentiles is proofs
--   Net/Token        tokens; Token/Router the router; Routing is proofs
--   Net/PriorityQueue the queue; Order, Timeouts, Retries and Acknowledge are proofs
--   Net/FlowControl  the flow controller and the rate limiter; Windows, Loss, Rtt, Bounds are proofs
--   Net/Stream       chunks and sessions; Stream/Manager the manager; the other files are proofs
--   Net/Receiver     the receiver; Fifo, Waiting and Batch are proofs
--   Transport/PolicyEngine conditions and contexts; Rule, Set and Engine the rest; Conditions,
--     Rule/Matching, Set/Sorting, Set/Walking, Set/Decision, Engine/Cache and Engine/Size are proofs
--   Plugin/EventBus  the event bus; Plugin/Hooks the hooks; Subscribing and Chain are proofs
--   Plugin/Entry     plugin states, metadata, contexts and entries
--   Plugin/Dependencies the order by dependencies; Graph, Searching and Resolving are proofs
--   Plugin/Manager   register and unregister; Manager/Running start_all, stop_all and emit_event;
--     the other files under it are proofs
--   FileTransfer/TransferQueue the queue of file transfers; Draining and Retrying are proofs
--   FileTransfer/ProgressTracker the tracker of progress; States what it keeps of a task; Counting
--     is proofs
--   Storage/Clipboard the clipboard; Merging, Converging and Newest are proofs
-- The files named Tests hold runs at concrete inputs.
--
-- How state and operations correspond to the code. A struct is a record with the code's field
-- names, an enum a data type with its variants, a method a function from the state and the
-- arguments to the new state and the result. Locks and channels are left out: each operation is
-- one step. A Result is `NetResult`, which also has the outcome `panics`. Where the code reads the
-- clock, draws an identifier or calls another library, the model takes the answer as an argument.
-- A HashMap is an association list without repeated keys, whose order of iteration is that of the
-- list; a BinaryHeap is the list of its elements. Error texts, log lines, Display texts and
-- measured execution times are left out.
--
-- Bounds and fuel. usize and u64 are numbers below 2 ^ 64 whose sums and products wrap in the
-- flow controller, in streams and in the tracker of progress, where a sum of five speeds is
-- taken to be below that; u32 retry counts wrap; other counters of statistics are unbounded.
-- The averages of round-trip times, f64 in the code, are taken in whole numbers, which agree
-- below 2 ^ 51 milliseconds. `chunks` runs on fuel, the length of the data, which is enough as
-- each chunk takes a byte at least. The loop of `process_queue` runs on the length of the heap
-- and one more round, enough as each round but the last takes an item. A receiver that waits
-- runs over a list of pauses, one for each of its sleeps. visit_plugin runs on the number of
-- plugins and one more, enough as each nested call puts another plugin on its stack. i32
-- priorities are integers, which are only compared.
--
-- Not modelled: serialisation (bincode, serde_json), sockets, QUIC, TLS and the discovery
-- daemons, the engine's broadcasts, the connection pools, which no crate compiles, the other
-- storage, the other file transfer, identity and the user interfaces.
pub mod Base
pub mod FileTransfer
pub mod Net
pub mod Plugin
pub mod Storage
pub mod Transport
