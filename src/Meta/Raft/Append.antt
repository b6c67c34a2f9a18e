-- ===== src/Meta/Raft/Append.antt =====
-- crates/blitz-meta/src/raft.rs: `handle_append_entries`, and the request that the leader sends.
pub mod Overwrite
pub mod Matching
pub mod Follow
pub mod Agreement
use alpheidae.Prelude.{
  ℕ, zero, suc, ◌+◌, ◌-◌, ◌*◌, ◌/◌, ◌%◌, ◌^◌, ◌≤◌, ◌<◌, min, max, Bool, true, false, ◌&&◌, ◌||◌,
  not, Option, none, some, List, [], ◌∷◌, ◌++◌, ltb, leb, ◌==◌, if◌then◌else◌, length, get_elem?,
  take, drop, replicate, erase_idx, get_last?, any, find, ◌≡◌, refl, sym, ap, ◌∙◌, ◌≢◌, ◌⊎◌, inl,
  inr, arith, Bool-cases, Option-cases, All, map,
}
use alpheidae.Prelude.Bytes.{Str, ascii, str_eq, strip_prefix, eq_of_str_eq, str_eq_refl}
use alpheidae.Meta.Raft.{
  RaftState, follower, candidate, leader, is_leader, LogEntry, is_add_peer, is_remove_peer,
  add_peer, remove_peer, RequestVote, RequestVoteResponse, AppendEntries, AppendEntriesResponse,
  RaftNode, new, cluster_size, majority, jitter_ms, start_election, become_leader, last_log_index,
  last_log_term, index_of_last, term_of_last, append_entry, observe_term, reset_election_timeout,
  reset_heartbeat_timeout,
}

-- The consistency check: the entry before the new ones is in the log, with the leader's term.
unfoldable pub prev_log_ok : List LogEntry → ℕ → ℕ → Bool
prev_log_ok log zero term = true
prev_log_ok log (suc i) term = elim (get_elem? log i) [ none ↦ false | some e ↦ e.term == term ]

abbrev pub conflicts : List LogEntry → ℕ → LogEntry → Bool
conflicts log i e = elim (get_elem? log i) [ none ↦ false | some x ↦ not (x.term == e.term) ]

-- One round of the loop over `req.entries`; `i` is `idx - 1`.
unfoldable pub place_entry : List LogEntry → ℕ → LogEntry → List LogEntry
place_entry log i e =
    let kept = if conflicts log i e then take i log else log in
    if leb (length kept) i then kept ++ (e ∷ []) else kept

unfoldable pub place_entries : List LogEntry → ℕ → List LogEntry → List LogEntry
place_entries log i [] = log
place_entries log i (e ∷ es) = place_entries (place_entry log i e) (i + 1) es

-- The part behind the consistency check: the entries, then the commit index.
unfoldable pub accept_entries : RaftNode → AppendEntries → RaftNode
accept_entries f req =
    let log = place_entries f.log req.prev_log_index req.entries in
    record f {
      log = log;
      commit_index =
          if ltb f.commit_index req.leader_commit
          then min req.leader_commit (index_of_last log)
          else f.commit_index;
    }

-- The rest of the handler, once the node is in the request's term or in a later one.
unfoldable pub answer_append : ℕ → RaftNode → AppendEntries → RaftNode × AppendEntriesResponse
unfolding reset_election_timeout accept_entries
answer_append now m req =
    if ltb req.term m.current_term
    then (m, record { term = m.current_term; success = false })
    else let f = record (reset_election_timeout now m) { state = follower } in
      if prev_log_ok f.log req.prev_log_index req.prev_log_term
      then (accept_entries f req, record { term = f.current_term; success = true })
      else (f, record { term = f.current_term; success = false })

unfoldable pub handle_append_entries :
    ℕ → RaftNode → AppendEntries → RaftNode × AppendEntriesResponse
unfolding observe_term answer_append
handle_append_entries now n req = answer_append now (observe_term n req.term) req

-- The leader's term of the entry before the new ones; 0 at the start, and past the end.
unfoldable pub term_before : List LogEntry → ℕ → ℕ
term_before log zero = 0
term_before log (suc i) = elim (get_elem? log i) [ none ↦ 0 | some e ↦ e.term ]

-- The request that `send_append_entries` writes on the wire.
unfoldable pub append_request : Str → ℕ → ℕ → List LogEntry → List LogEntry → AppendEntries
unfolding term_before
append_request id term commit log entries =
    let prev : ℕ = elim entries [ [] ↦ index_of_last log | e ∷ es ↦ e.index - 1 ] in
    record {
      term = term;
      leader_id = id;
      prev_log_index = prev;
      prev_log_term = term_before log prev;
      entries = entries;
      leader_commit = commit;
    }

-- `send_heartbeat` passes an empty log.
unfoldable pub heartbeat_request : Str → ℕ → ℕ → AppendEntries
unfolding append_request
heartbeat_request id term commit = append_request id term commit [] []
