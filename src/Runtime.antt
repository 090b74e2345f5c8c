-- ===== src/Runtime.antt =====
-- src/rwkv_agent/state_runtime.py, class PersistentStateRuntime: persistent states over the registry
-- and the scheduler. Snapshots to bytes are left out.
pub mod Defs
pub mod Turns
pub mod Creation
pub mod Marks
pub mod Busy
pub mod Rounds
pub mod Expiry
