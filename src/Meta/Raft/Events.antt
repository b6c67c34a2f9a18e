-- ===== src/Meta/Raft/Events.antt =====
-- What can happen to one Raft node: the calls that `tick` and the message handlers make on it.
use alpheidae.Prelude.{ℕ, List, [], ◌∷◌, ◌≡◌, inl, inr, arith, Option-cases}
use alpheidae.Prelude.Bytes.{Str}
use alpheidae.Meta.Raft.{
  LogEntry, is_add_peer, is_remove_peer, RequestVote, AppendEntries, RaftNode, start_election,
  become_leader, append_entry, observe_term,
}
use alpheidae.Meta.Raft.Members.{
  apply_config_entry, apply_add, apply_remove, remove_at, activate_peer, deactivate, position,
}
use alpheidae.Meta.Raft.Vote.{handle_request_vote}
use alpheidae.Meta.Raft.Append.{handle_append_entries}
use alpheidae.Meta.Raft.Apply.{take_applicable}
use alpheidae.Meta.Raft.Snapshot.{install_raft}

-- Each event carries the time of the call, where the call reads the clock.
pub data Event : Type 0 where
  elect win : ℕ → Event
  request_vote : ℕ → RequestVote → Event
  append_entries : ℕ → AppendEntries → Event
  propose : Str → Str → Event
  commit : ℕ → Event
  deliver : Event
  config : LogEntry → Event
  activate roll_back : Str → Event
  snapshot : ℕ → Str → ℕ → List Str → List LogEntry → Event

unfoldable pub step : RaftNode → Event → RaftNode
step n (elect now) = start_election now n
step n (win now) = become_leader now n
step n (request_vote now req) = (handle_request_vote now n req).0
step n (append_entries now req) = (handle_append_entries now n req).0
step n (propose key val) = (append_entry n key val).0
step n (commit i) = record n { commit_index = i }
step n deliver = (take_applicable n).0
step n (config e) = (apply_config_entry n e).0
step n (activate addr) = activate_peer n addr
step n (roll_back addr) = deactivate n addr
step n (snapshot now addr epoch peers entries) = install_raft now addr n epoch peers entries

unfoldable pub run : RaftNode → List Event → RaftNode
run n [] = n
run n (e ∷ es) = run (step n e) es

-- The term and the vote of a node: all that the election rules look at.
abbrev pub SameVote : RaftNode → RaftNode → Type 0
SameVote m n = (m.current_term ≡ n.current_term) × (m.voted_for ≡ n.voted_for)

remove_at-SameVote : (n : RaftNode) (i : ℕ) → SameVote (remove_at n i) n
unfolding remove_at
remove_at-SameVote n i = ground arith

apply_remove-SameVote : (n : RaftNode) (addr : Str) → SameVote (apply_remove n addr) n
unfolding apply_remove
apply_remove-SameVote n addr = elim (Option-cases (position addr n.peers)) [
  | inl e ↦ rw e (ground arith)
  | inr (i, e) ↦ rw e (ground (arith, remove_at-SameVote n i))
]

apply_add-SameVote : (n : RaftNode) (addr : Str) → SameVote (apply_add n addr).0 n
unfolding apply_add
apply_add-SameVote n addr = ground arith

pub config-SameVote : (n : RaftNode) (e : LogEntry) → SameVote (apply_config_entry n e).0 n
unfolding apply_config_entry
config-SameVote n e = elim (Option-cases (is_add_peer e)) [
  | inl p ↦ elim (Option-cases (is_remove_peer e)) [
    | inl q ↦ ground arith
    | inr (a, q) ↦ ground (arith, apply_remove-SameVote n a)
  ]
  | inr (a, p) ↦ ground (arith, apply_add-SameVote n a)
]

pub activate-SameVote : (n : RaftNode) (addr : Str) → SameVote (activate_peer n addr) n
unfolding activate_peer
activate-SameVote n addr = ground arith

pub deactivate-SameVote : (n : RaftNode) (addr : Str) → SameVote (deactivate n addr) n
unfolding deactivate
deactivate-SameVote n addr = elim (Option-cases (position addr n.peers)) [
  | inl e ↦ rw (e, deactivate) (ground arith)
  | inr (i, e) ↦ rw (e, deactivate) (ground arith)
]

pub deliver-SameVote : (n : RaftNode) → SameVote (take_applicable n).0 n
unfolding take_applicable
deliver-SameVote n = ground arith

-- A node that takes a request is in its term or in a later one, and keeps its vote within a term.
pub append-SameVote :
    (now : ℕ) (n : RaftNode) (req : AppendEntries)
    → SameVote (handle_append_entries now n req).0 (observe_term n req.term)
unfolding handle_append_entries
append-SameVote now n req = ground arith
