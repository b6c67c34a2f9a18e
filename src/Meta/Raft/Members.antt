-- ===== src/Meta/Raft/Members.antt =====
-- crates/blitz-meta/src/raft.rs: single-server membership changes.
pub mod Change
pub mod Aligned
use alpheidae.Prelude.{
  ℕ, zero, suc, ◌+◌, ◌-◌, ◌*◌, ◌/◌, ◌%◌, ◌^◌, ◌≤◌, ◌<◌, min, max, Bool, true, false, ◌&&◌, ◌||◌,
  not, Option, none, some, List, [], ◌∷◌, ◌++◌, ltb, leb, ◌==◌, if◌then◌else◌, length, get_elem?,
  take, drop, replicate, erase_idx, get_last?, any, find, ◌≡◌, refl, sym, ap, ◌∙◌, ◌≢◌, ◌⊎◌, inl,
  inr, arith, Bool-cases, Option-cases, All, map,
}
use alpheidae.Prelude.Bytes.{Str, ascii, str_eq, strip_prefix, eq_of_str_eq, str_eq_refl}
use alpheidae.Meta.Raft.{
  RaftState, follower, candidate, leader, is_leader, LogEntry, is_add_peer, is_remove_peer,
  add_peer, remove_peer, RequestVote, RequestVoteResponse, AppendEntries, AppendEntriesResponse,
  RaftNode, new, cluster_size, majority, jitter_ms, start_election, become_leader, last_log_index,
  last_log_term, index_of_last, term_of_last, append_entry, observe_term, reset_election_timeout,
  reset_heartbeat_timeout,
}

-- `iter().position(|p| p == addr)`.
abbrev pub position : Str → List Str → Option ℕ
position addr [] = none
position addr (p ∷ ps) = elim (str_eq p addr) [
  | true ↦ some 0
  | false ↦ elim (position addr ps) [ none ↦ none | some i ↦ some (suc i) ]
]

abbrev pub is_peer : Str → List Str → Bool
is_peer addr peers = any (λ p. str_eq p addr) peers

unfoldable pub apply_add : RaftNode → Str → RaftNode × Option Str
apply_add n addr =
    if not (str_eq addr n.id) && not (is_peer addr n.peers)
    then if is_leader n.state
      then (n, some addr)
      else (record n { peers = n.peers ++ (addr ∷ []) }, none)
    else (n, none)

unfoldable pub remove_at : RaftNode → ℕ → RaftNode
remove_at n i =
    let m = record n { peers = erase_idx n.peers i } in
    if is_leader n.state && ltb i (length n.next_index) && ltb i (length n.match_index)
    then record m { next_index = erase_idx n.next_index i; match_index = erase_idx n.match_index i }
    else m

unfoldable pub apply_remove : RaftNode → Str → RaftNode
unfolding remove_at
apply_remove n addr =
    let m : RaftNode = elim (position addr n.peers) [ none ↦ n | some i ↦ remove_at n i ] in
    if str_eq addr n.id then record m { state = follower } else m

unfoldable pub apply_config_entry : RaftNode → LogEntry → RaftNode × Option Str
unfolding is_add_peer is_remove_peer apply_add apply_remove
apply_config_entry n e = elim (is_add_peer e) [
  | some addr ↦ apply_add n addr
  | none ↦ elim (is_remove_peer e) [ some addr ↦ (apply_remove n addr, none) | none ↦ (n, none) ]
]

unfoldable pub activate_peer : RaftNode → Str → RaftNode
activate_peer n addr =
    if not (str_eq addr n.id) && not (is_peer addr n.peers)
    then (let m = record n { peers = n.peers ++ (addr ∷ []) } in
        if is_leader n.state
        then record m {
          next_index = n.next_index ++ ((length n.log + 1) ∷ []);
          match_index = n.match_index ++ (0 ∷ []);
        }
        else m)
    else n

-- The roll back of `activate_new_peers`. `Vec::remove` under its guard: `erase_idx` changes nothing past the end.
unfoldable pub deactivate : RaftNode → Str → RaftNode
deactivate n addr = elim (position addr n.peers) [
  | none ↦ n
  | some i ↦ record n {
    peers = erase_idx n.peers i;
    next_index = erase_idx n.next_index i;
    match_index = erase_idx n.match_index i;
  }
]
