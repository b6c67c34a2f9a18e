-- ===== src/Meta/Raft/Snapshot.antt =====
-- crates/blitz-meta/src/lib.rs: the Raft half of `apply_snapshot`.
use alpheidae.Prelude.{ℕ, max, not, List}
use alpheidae.Prelude.Bytes.{Str, str_eq}
use alpheidae.Meta.Raft.{follower, LogEntry, RaftNode, index_of_last, reset_election_timeout}
use alpheidae.Prelude.{keep}

unfoldable pub install_raft : ℕ → Str → RaftNode → ℕ → List Str → List LogEntry → RaftNode
unfolding reset_election_timeout
install_raft now addr n epoch snap_peers entries = reset_election_timeout now (record n {
  peers = keep (λ p. not (str_eq p addr)) snap_peers;
  log = entries;
  commit_index = index_of_last entries;
  last_applied = index_of_last entries;
  current_term = max n.current_term epoch;
  state = follower;
})
