-- ===== src/Examples.antt =====
-- Concrete runs: a backend with lists of tokens for rows, and an example of each theorem.
pub mod Machine
pub mod Pool
pub mod Serving
pub mod Records
pub mod Engine
pub mod Codec
pub mod Caches
pub mod Transfers
pub mod Stops
