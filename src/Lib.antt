-- ===== src/Lib.antt =====
-- Verification library of Alpheidae, a query engine with a replicated catalog, a columnar format and
-- stream processing in epochs.
--
-- The parts and their files:
--   crates/blitz-meta/src/raft.rs: Meta/Raft. A node (`RaftNode`) is a record and each of its methods a
--     function that returns the node after it: Raft (elections, terms, the log), Raft/Members
--     (`apply_config_entry`, `activate_peer`), Raft/Vote (`handle_request_vote`), Raft/Append
--     (`handle_append_entries` and what `send_append_entries` sends), Raft/Apply (`take_applicable`).
--     Raft/Events is a history of such calls on one node. Lemmas on logs are in Raft/Indexed.
--   crates/blitz-meta/src/lib.rs: Meta/State (the data), Meta/Node (`tick`, `apply_committed`,
--     `leader_propose`, `apply_snapshot` and the handlers), Meta/Node/Start (`start_inner`),
--     Meta/Node/Peers (adding and removing peers), Meta/Raft/Snapshot (the Raft half of a
--     snapshot), Meta/Messages (the requests on the wire). A node is its Raft half and its catalog;
--     `apply_committed` takes entries from the first and writes them to the second. A proposal is cut
--     in two (`propose_start`, `propose_finish`) where the code lets go of its locks to call the peers;
--     what the other threads do to the node in that time is an argument.
--   crates/blitz-meta/src/persist.rs: Wire (bytes), Meta/Persist (the two files).
--   crates/blitz-stream/src: Stream/Sizer (sizer.rs), Stream/Plan (source.rs, offsets.rs), Stream/Epoch
--     and Stream/Until (lib.rs; the worker threads are a step relation, so that every interleaving is
--     covered).
--   crates/blitz-core/src/lib.rs: Core, Core/Filter (`filter_i64`), Core/Agg (`Acc`, `sum_i64`),
--     Core/Groups and Core/Group (`group_agg`), Core/Shuffle (`to_bytes` and `from_bytes` of a column).
--   crates/blitz-cluster/src/lib.rs: Cluster (zone maps; a table is its blocks, each with its zones),
--     Cluster/Rebuild (the blocks that `recluster` builds).
--   crates/blitz-format/src/lib.rs and lz4.rs: Format (deltas), Format/Lz4 (the codec), Format/Page (the
--     i64 pages, which are deltas compressed).
--   crates/blitz-sql/src/lib.rs: Sql (queries), Sql/Lex (tokens), Sql/Parse (the parser);
--     Sql/Print and Sql/Written write a query as tokens and as a text.
--   crates/blitz-exec/src/lib.rs: Exec (`Partial`, `exec_morsel`), Exec/Wire (the messages of a query and
--     of a partial result), Exec/Ship (how a morsel gets to a worker and its answer back), Exec/Ramp
--     (`run_ramped_internal` and `serve_worker` as steps of local threads, of workers and of the
--     coordinator), Exec/Resolve (`resolve_table_source`). Exec/Answers says what a partial result
--     stands for, Exec/Morsel what a block contributes. The pipeline uses the kernels of Core on the
--     blocks that Cluster leaves.
--   Prelude has the shared names, Boolean tests, lists over the native numbers and byte strings; Tests
--   has runs at concrete values.
--
-- Conventions. A Rust `String` is the list of its bytes. Terms, indices, epochs, offsets and times in
-- milliseconds are numbers without an upper bound, except where bytes are written: there a u64 is below
-- 2 ^ 64, and a length is cut to 32 bits as the code does; and except in Stream, where the sums that
-- may pass 64 bits are written out. An i64 of a column is its 64-bit pattern.
-- A panic and an error are `none`. What other processes answer is an argument: the votes and
-- acknowledgements of the peers, the clock, whether an offset store takes a put.
--
-- Loops on fuel: `apply_loop` has a unit for each entry between `last_applied` and `commit_index`;
-- `plan_loop` has a unit for each record, and each round takes one at least; `chunk_loop` has a unit
-- for each value, and each round takes eight; `put_loop` has ten units, and a u64 has at most ten
-- groups of seven bits; `put_len_loop` has a unit for each count, and each round takes 255;
-- `compress_loop`, `extend` and `decompress_loop` have a unit for each byte, and each round passes over
-- one at least; `with_loop`, `clause_loop` and `parse_inner_query` have a unit for each token. Each loop
-- ends before its fuel does.
--
-- Not modelled: sockets, the threads and locks of a node (handlers run one at a time, which is what
-- the mutexes give each block of code; `apply_snapshot`, which locks its Raft mutex within a loop
-- that holds it, has no result there), the file system, the Z-order layout, the dictionary pages and the footer
-- of the file format, columns of floats, dates and decimals in the execution, the shuffle messages,
-- and the crates for planning, storage and Iceberg.
pub mod Prelude
pub mod Meta
pub mod Wire
pub mod Stream
pub mod Core
pub mod Cluster
pub mod Sql
pub mod Exec
pub mod Format
pub mod Tests
