-- ===== src/Meta/Raft/Vote.antt =====
-- crates/blitz-meta/src/raft.rs: `handle_request_vote`.
pub mod Safety
pub mod Quorum
use alpheidae.Prelude.{
  ℕ, zero, suc, ◌+◌, ◌-◌, ◌*◌, ◌/◌, ◌%◌, ◌^◌, ◌≤◌, ◌<◌, min, max, Bool, true, false, ◌&&◌, ◌||◌,
  not, Option, none, some, List, [], ◌∷◌, ◌++◌, ltb, leb, ◌==◌, if◌then◌else◌, length, get_elem?,
  take, drop, replicate, erase_idx, get_last?, any, find, ◌≡◌, refl, sym, ap, ◌∙◌, ◌≢◌, ◌⊎◌, inl,
  inr, arith, Bool-cases, Option-cases, All, map,
}
use alpheidae.Prelude.Bytes.{Str, ascii, str_eq, strip_prefix, eq_of_str_eq, str_eq_refl}
use alpheidae.Meta.Raft.{
  RaftState, follower, candidate, leader, is_leader, LogEntry, is_add_peer, is_remove_peer,
  add_peer, remove_peer, RequestVote, RequestVoteResponse, AppendEntries, AppendEntriesResponse,
  RaftNode, new, cluster_size, majority, jitter_ms, start_election, become_leader, last_log_index,
  last_log_term, index_of_last, term_of_last, append_entry, observe_term, reset_election_timeout,
  reset_heartbeat_timeout,
}

abbrev pub voted_other : Option Str → Str → Bool
voted_other none c = false
voted_other (some v) c = not (str_eq v c)

-- The candidate's log is older than the voter's.
abbrev pub is_behind : RequestVote → RaftNode → Bool
is_behind req n =
    ltb req.last_log_term (last_log_term n)
    || (req.last_log_term == last_log_term n && ltb req.last_log_index (last_log_index n))

-- The rest of the handler, once the node is in the request's term or in a later one.
unfoldable pub decide_vote : ℕ → RaftNode → RequestVote → RaftNode × RequestVoteResponse
unfolding reset_election_timeout last_log_index last_log_term
decide_vote now m req =
    let deny : RaftNode × RequestVoteResponse =
      (m, record { term = m.current_term; vote_granted = false }) in
    if ltb req.term m.current_term
    then deny
    else if voted_other m.voted_for req.candidate_id
    then deny
    else if is_behind req m
    then deny
    else (
      reset_election_timeout now (record m { voted_for = some req.candidate_id }),
      record { term = m.current_term; vote_granted = true },
    )

unfoldable pub handle_request_vote : ℕ → RaftNode → RequestVote → RaftNode × RequestVoteResponse
unfolding observe_term decide_vote
handle_request_vote now n req = decide_vote now (observe_term n req.term) req
