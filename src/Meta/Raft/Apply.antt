-- ===== src/Meta/Raft/Apply.antt =====
-- crates/blitz-meta/src/raft.rs: `take_applicable`.
pub mod Order
use alpheidae.Prelude.{
  ℕ, zero, suc, ◌+◌, ◌-◌, ◌*◌, ◌/◌, ◌%◌, ◌^◌, ◌≤◌, ◌<◌, min, max, Bool, true, false, ◌&&◌, ◌||◌,
  not, Option, none, some, List, [], ◌∷◌, ◌++◌, ltb, leb, ◌==◌, if◌then◌else◌, length, get_elem?,
  take, drop, replicate, erase_idx, get_last?, any, find, ◌≡◌, refl, sym, ap, ◌∙◌, ◌≢◌, ◌⊎◌, inl,
  inr, arith, Bool-cases, Option-cases, All, map,
}
use alpheidae.Prelude.Bytes.{Str, ascii, str_eq, strip_prefix, eq_of_str_eq, str_eq_refl}
use alpheidae.Meta.Raft.{
  RaftState, follower, candidate, leader, is_leader, LogEntry, is_add_peer, is_remove_peer,
  add_peer, remove_peer, RequestVote, RequestVoteResponse, AppendEntries, AppendEntriesResponse,
  RaftNode, new, cluster_size, majority, jitter_ms, start_election, become_leader, last_log_index,
  last_log_term, index_of_last, term_of_last, append_entry, observe_term, reset_election_timeout,
  reset_heartbeat_timeout,
}

-- The loop of `take_applicable`, on fuel: one unit for each entry from `applied` to `commit`.
unfoldable pub apply_loop : ℕ → ℕ → List LogEntry → ℕ → List LogEntry → ℕ × List LogEntry
apply_loop zero commit log applied out = (applied, out)
apply_loop (suc fuel) commit log applied out =
    let found : List LogEntry = elim (find (λ e. e.index == applied + 1) log) [
      | none ↦ out
      | some e ↦ out ++ (e ∷ [])
    ] in
    let rest = apply_loop fuel commit log (applied + 1) found in
    if ltb applied commit then rest else (applied, out)

unfoldable pub take_applicable : RaftNode → RaftNode × List LogEntry
unfolding apply_loop
take_applicable n =
    let (applied, out) =
      apply_loop (n.commit_index - n.last_applied) n.commit_index n.log n.last_applied [] in
    (record n { last_applied = applied }, out)
