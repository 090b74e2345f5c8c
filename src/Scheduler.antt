-- ===== src/Scheduler.antt =====
-- src/rwkv7_scheduler/scheduler.py, class AlbatrossChunkScheduler, method by method.
pub mod Requests
pub mod Forward
pub mod Prefill
pub mod Continuations
pub mod Decode
pub mod Rows
pub mod Chunks
pub mod Endings
pub mod Steady
pub mod Passes
pub mod Waves
pub mod Turns
pub mod Tokens
pub mod Agreement
pub mod Admissions
pub mod Forks
pub mod History
pub mod Transfer
pub mod Imports
pub mod Restored
pub mod Names
pub mod Listed
pub mod Portable
pub mod Exchange
