-- ===== src/Meta.antt =====
-- crates/blitz-meta: the replicated catalog.
pub mod Raft
pub mod State
pub mod Persist
pub mod Messages
pub mod Node
