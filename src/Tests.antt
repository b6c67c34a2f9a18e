-- ===== src/Tests.antt =====
-- Runs of the models at concrete values.
mod Raft
mod Node
mod Persist
mod Stream
mod Core
mod Exec
mod Sql
mod Format
