-- ===== src/Lib.antt =====
-- The serving core of the agent: the recurrent states of a language model in a slab of slots, a
-- scheduler that batches requests over the slab, persistent states with owners over the scheduler,
-- and the worker that registers, serves and drains.
--
-- Base has the shared notation, the exception monad `M` (an operation takes its state, and returns
-- with a state or raises with one) and the lemmas on lists, tables and texts. Backend is what the
-- code takes from PyTorch and the model, as a record of operations with their documented laws; every
-- other module has it as an instance argument, and Examples/Machine gives one to run.
--
-- StatePool (src/rwkv7_scheduler/state_pool.py): class AlbatrossStatePool, a function for each
-- method. Its children have the invariant (Invariant), the handles that are live (Handles), batches
-- (Batches), histories of calls (History), allocation and release of many (Atomic), copies (Clone)
-- and the calls that move rows only (Frames).
-- Scheduler (src/rwkv7_scheduler/scheduler.py): class AlbatrossChunkScheduler, with requests
-- (Requests), forward passes (Forward), prefill (Prefill), continuations (Continuations) and decode
-- (Decode). It calls the pool; Rows sees a forward pass row by row, Chunks has the lengths of chunks,
-- Endings the calls that need no fuel. Steady, Waves, Turns and Tokens are the calls that keep every
-- handle, Passes a forward pass, Agreement, Admissions and Forks those that give and take handles,
-- History any sequence of calls. Transfer has the export and the import of a state, Imports and
-- Restored what an import leaves, Names, Listed, Portable and Exchange that it undoes an export; how a
-- row is cut into tensors is a record, also named Transfer.
-- Decoding (src/rwkv_runtime/decode.py): a greedy token, and stop texts over lists of code points.
-- Registry (src/rwkv_agent/persistent_state.py): records in the tree that forking makes, with a
-- scheduler inside. Rounds, Descendants, Reachable, Orphans, Release and Subtrees are about subtrees.
-- Runtime (src/rwkv_agent/state_runtime.py, src/rwkv_runtime/classification.py): class
-- PersistentStateRuntime, over the registry. Defs has the short methods, Creation the batch prefill,
-- Turns classification and continuation, Marks and Busy the marks of states whose decode runs outside
-- the lock, Expiry what an expiry does to them, Rounds the rounds of a decode.
-- Worker (src/rwkv_agent/statepool_worker.py): class StatePoolWorkerAgent; the control plane is
-- given by its replies. Drain has the histories of calls.
--
-- Batching (src/rwkv_agent/batching.py, src/rwkv_agent/state_batching.py): class ContinuousBatchEngine,
-- with the variables of its thread in one state. Jobs has the clients' calls, Admission, Ticks and
-- Loop the phases of an iteration, Endings the ways a job ends. What is written once is in the job,
-- what changes in a table under its identity. Later, Phases, Rounds, Submissions, History and Once
-- follow any interleaving of phases and calls, Sweeps and Shutdown the end of the loop, Freed the
-- requests that the endings release.
--
-- Snapshot (src/rwkv_runtime/state_snapshot.py): the bytes of an exported state; what json, hashlib and
-- safetensors do is the record Formats. Roundtrip decodes what was encoded, Checks has the refusals.
-- Stop (src/rwkv_agent/statepool_drain.py): the client that waits for a worker to drain.
-- Cache (src/rwkv_search/realtime/cache.py): class TTLByteCache, with the invariant in Budget and what
-- is found in Lookups.
--
-- A lock of the source makes a method one step here; `continue_many` of the runtime is two steps
-- under the lock with the decode between them. A clock or a source of identities is a field of the
-- state. Exceptions keep their class and lose their message; what a library raises is one class,
-- library_error, where no modelled code tells its class. Shared request objects are named by
-- their key in the request table.
--
-- Loops with fuel: `walk_from` has one more than the records, as a key is pushed once; `root_from`
-- the same, as `seen` grows; `batches_from` the length of the list; `prefill_loop` the number of
-- tokens left and one, as a wave takes a token of each active request; the decode loops the token
-- budget and one; `poll` a number of requests by which the clock has reached the deadline.
--
-- Not modelled: the snapshots of the runtime (snapshot, restore), the read-only descriptions of the
-- runtime, settings from the environment, HTTP, logging, the health of the batch engine, the
-- retrieval and evidence parts, and what a value of another type than a method expects does.
pub mod Base
pub mod Backend
pub mod StatePool
pub mod Scheduler
pub mod Decoding
pub mod Registry
pub mod Runtime
pub mod Worker
pub mod Batching
pub mod Snapshot
pub mod Stop
pub mod Cache
pub mod Examples
