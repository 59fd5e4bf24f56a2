-- ===== src/Lib.antt =====
-- A verification library for shipstern, a Rust toolkit that turns Solana's geyser streams into
-- parsed, ordered data.
--
-- The block coordinator (crates/block-coordinator/src) stands between a geyser stream, the parsers
-- and the sinks. It holds the records of each slot back until two gates open (all transactions of
-- the slot are parsed and the slot is confirmed; all account updates that were seen are processed
-- and the account commitment is reached) and sends the slots out in order.
-- * BlockCoordinator.Types and Keys model types.rs: the records sorted by (transaction index,
--   instruction path) and by (write version, pubkey).
-- * BlockCoordinator.Buffer models buffer.rs, the records and the gates of one slot.
-- * BlockCoordinator.State models state.rs: `CoordinatorEvent`, `CoordinatorState` and `apply`.
--   `apply` of the source returns `Ok(())` on every path, so here it is the new state.
-- * BlockCoordinator.Drain models the two drains of state.rs and the cleanup after them. Their
--   loops run over the keys taken when the drain starts; Drain.Passes compares them with one pass
--   over the entries, whose order and effects are in Drain.Sweep and Drain.Order.
-- * BlockCoordinator.Boundary and Coordinator model coordinator.rs. One input of `tokio::select!`
--   is one step, so every interleaving of the two receivers is a list of inputs. The wrapped
--   state machine of the crate yellowstone-block-machine is not in the repository: it is a
--   parameter, with its two queues and the law that a pop shrinks its queue; the fuel of
--   `pop_all` is one more than what is queued. An output channel is what was sent on it and the
--   room that it has before its receiver is gone.
-- * BlockCoordinator.Valid, Frontier, Flush, Gates, Accounts and Stall hold the proofs, and
--   Cases the rules on events that they share.
--
-- The preconfirmation source (crates/preconf-source/src) turns the streams of two feeds into
-- runtime updates.
-- * Preconf.Convert models convert.rs; Restored reads a transaction back from the proto. The
--   decoder (wincode) and the vote test of the Solana crates are parameters of the definitions that
--   use them.
-- * Preconf.Framer models framer.rs, the index map and the counters of one stream; its children
--   hold the proofs, and Framer.Runs the calls that the run loop of lib.rs makes.
-- * Preconf.Reconnect models reconnect.rs. A run is a list of answers, one for each turn of the
--   loop, of the stream and of the server; how long a stream was up is part of an answer.
--
-- The crate core (crates/core/src) gives parsers the instruction trees of a transaction.
-- * Core.Lines models the classes of log lines of log_messages.rs, Core.Logs the assignment of
--   line ranges to instructions, Core.Split the split by outer instruction. The parser of a base58
--   key is a parameter. The recursion of `assign_logs_recursive` runs on fuel; `assign_from` gives
--   it the length of the log, at least one above the lines that are left.
-- * Core.Paths models the paths of instruction.rs and `derive_paths_from_stackheights`, whose loop
--   over indexes is a recursion on the heights with the last height and the path stack.
-- * Core.Trees models `build_from_txn` of instruction.rs: the keys of an account index, the forest
--   made of the stack heights, its attachment to the outer instructions and the preorder visit. The
--   loop from the last parent to the first is a recursion that nests what follows a parent first.
-- * Core.Prefilter models the prefilters of lib.rs: the sets of keys and filters, their merge, the
--   checks of account filters and data slices, the builder and the request that a prefilter
--   becomes. The cuckoo filter of yellowstone-grpc-proto is a parameter, with the law that an
--   inserted key is held. What a prefilter lets through is read off the comments on its fields.
--
-- The crate runtime (crates/runtime/src) runs handlers on what the parsers of a stream return.
-- * Runtime.Handler and Dispatch model handler.rs and filter_pipeline.rs: a parser with its
--   handlers, the sets of pipelines and the filters made of them. A parser and a handler are what
--   they answer, so a run is the list of the answers in the order of the handlers.
-- * Runtime.Instruction models instruction.rs, both instruction pipelines.
-- * Runtime.Buffer models the loop of buffer.rs, the thread that queues its jobs and the jobs as
--   steps of one relation on the permits, the queue and the jobs that run. That the wait
--   for the jobs after the loop is given up at its ceiling is a step; a handler that panics is left
--   out.
--
-- The Kafka sink (crates/kafka-sink/src) writes what the parsers return to topics.
-- * Kafka.Sink and Records model sink.rs and the keys of utils.rs: which parser decides, and the
--   record with its topic, key, headers and payload. The parsers, the decimal and base58 texts and
--   the JSON of an event are parameters.
-- * Kafka.Wire models the wire format of schema_registry.rs; a u64 has at most ten 7-bit groups,
--   which is the fuel of its varints.
--
-- Base holds what the parts share: Boolean tests on numbers, lists, and Rust's ordered and hashed
-- maps as association lists sorted by key. A u64 is a natural number that wraps at 2 ^ 64 where
-- the source adds to it in release mode.
--
-- Not modelled: log lines and metrics, network and file I/O, the clients of third-party services,
-- the code generators and the parsers.
mod Base
pub mod BlockCoordinator
pub mod Core
pub mod Kafka
pub mod Preconf
pub mod Runtime
