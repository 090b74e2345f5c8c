-- ===== src/Batching.antt =====
-- src/rwkv_agent/batching.py, class ContinuousBatchEngine: one queue for ephemeral and persistent
-- inference, advanced by one worker thread. A client's call and each phase of the worker's loop are
-- one step.
pub mod Jobs
pub mod Endings
pub mod Admission
pub mod Ticks
pub mod Loop
pub mod Later
pub mod Phases
pub mod Rounds
pub mod Submissions
pub mod History
pub mod Once
pub mod Sweeps
pub mod Shutdown
pub mod Freed
