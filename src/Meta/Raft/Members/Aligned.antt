-- ===== src/Meta/Raft/Members/Aligned.antt =====
-- The leader's replication indices beside its peers, in raft.rs.
use alpheidae.Prelude.{ℕ, ◌+◌, ◌<◌, true, List, [], ◌∷◌, length, ◌≡◌, inl, inr, arith, Option-cases}
use alpheidae.Prelude.Bytes.{Str}
use alpheidae.Meta.Raft.{
  follower, is_leader, LogEntry, is_add_peer, is_remove_peer, RequestVote, AppendEntries, RaftNode,
  start_election, become_leader, append_entry, observe_term,
}
use alpheidae.Meta.Raft.Members.{
  apply_config_entry, apply_add, apply_remove, remove_at, activate_peer, deactivate, position,
}
use alpheidae.Meta.Raft.Vote.{handle_request_vote}
use alpheidae.Meta.Raft.Append.{handle_append_entries}
use alpheidae.Meta.Raft.Apply.{take_applicable}
use alpheidae.Meta.Raft.Members.{apply_config_entry, activate_peer}
use alpheidae.Meta.Raft.Snapshot.{install_raft}
use alpheidae.Meta.Raft.Events.{
  Event, elect, win, request_vote, append_entries, propose, commit, deliver, config, activate,
  roll_back, snapshot, step, run,
}
use alpheidae.Prelude.{length-append, length-replicate}
use alpheidae.Meta.Raft.Members.Change.{position-lt, length-erase_idx}
use alpheidae.Meta.Raft.Vote.{decide_vote}
use alpheidae.Meta.Raft.Append.{answer_append}

-- While the node leads, it has one `next_index` and one `match_index` for each peer.
abbrev pub IsAligned : RaftNode → Type 0
IsAligned n =
    is_leader n.state ≡ true
    → (length n.next_index ≡ length n.peers) × (length n.match_index ≡ length n.peers)

observe_term-IsAligned : (n : RaftNode) (t : ℕ) → IsAligned n → IsAligned (observe_term n t)
unfolding observe_term
observe_term-IsAligned n t h = ground arith

decide_vote-IsAligned :
    (now : ℕ) (m : RaftNode) (req : RequestVote) → IsAligned m → IsAligned (decide_vote now m req).0
unfolding decide_vote
decide_vote-IsAligned now m req h = ground arith

answer_append-IsAligned :
    (now : ℕ) (m : RaftNode) (req : AppendEntries)
    → IsAligned m
    → IsAligned (answer_append now m req).0
unfolding answer_append
answer_append-IsAligned now m req h = ground arith

remove_at-IsAligned :
    (n : RaftNode) (i : ℕ) → i < length n.peers → IsAligned n → IsAligned (remove_at n i)
unfolding remove_at
remove_at-IsAligned n i lt h = ground (
  arith,
  length-erase_idx n.peers i,
  length-erase_idx n.next_index i,
  length-erase_idx n.match_index i,
)

apply_remove-IsAligned : (n : RaftNode) (addr : Str) → IsAligned n → IsAligned (apply_remove n addr)
unfolding apply_remove
apply_remove-IsAligned n addr h = elim (Option-cases (position addr n.peers)) [
  | inl e ↦ rw e (ground arith)
  | inr (i, e) ↦ rw e (ground (arith, remove_at-IsAligned n i (position-lt addr n.peers i e) h))
]

apply_add-IsAligned : (n : RaftNode) (addr : Str) → IsAligned n → IsAligned (apply_add n addr).0
unfolding apply_add
apply_add-IsAligned n addr h = ground (arith, length-append n.peers (addr ∷ []))

config-IsAligned :
    (n : RaftNode) (e : LogEntry) → IsAligned n → IsAligned (apply_config_entry n e).0
unfolding apply_config_entry
config-IsAligned n e h = elim (Option-cases (is_add_peer e)) [
  | inl p ↦ elim (Option-cases (is_remove_peer e)) [
    | inl q ↦ rw (p, q) h
    | inr (a, q) ↦ rw (p, q) (apply_remove-IsAligned n a h)
  ]
  | inr (a, p) ↦ rw p (apply_add-IsAligned n a h)
]

activate-IsAligned : (n : RaftNode) (addr : Str) → IsAligned n → IsAligned (activate_peer n addr)
unfolding activate_peer
activate-IsAligned n addr h = ground (
  arith,
  length-append n.peers (addr ∷ []),
  length-append n.next_index ((length n.log + 1) ∷ []),
  length-append n.match_index (0 ∷ []),
)

deactivate-IsAligned : (n : RaftNode) (addr : Str) → IsAligned n → IsAligned (deactivate n addr)
unfolding deactivate
deactivate-IsAligned n addr h = elim (Option-cases (position addr n.peers)) [
  | inl e ↦ rw (e, deactivate) h
  | inr (i, e) ↦
      rw (e, deactivate)
        (ground (
          arith,
          position-lt addr n.peers i e,
          length-erase_idx n.peers i,
          length-erase_idx n.next_index i,
          length-erase_idx n.match_index i,
        ))
]

step-IsAligned : (n : RaftNode) (e : Event) → IsAligned n → IsAligned (step n e)
unfolding step handle_request_vote handle_append_entries
step-IsAligned n (elect now) h = unfold start_election in λ e. cc
step-IsAligned n (win now) h =
    unfold become_leader in λ e. (length-replicate _ _, length-replicate _ _)
step-IsAligned n (request_vote now req) h =
    decide_vote-IsAligned now (observe_term n req.term) req (observe_term-IsAligned n req.term h)
step-IsAligned n (append_entries now req) h =
    answer_append-IsAligned now (observe_term n req.term) req (observe_term-IsAligned n req.term h)
step-IsAligned n (propose key val) h = unfold append_entry in h
step-IsAligned n (commit i) h = h
step-IsAligned n deliver h = unfold take_applicable in ground arith
step-IsAligned n (config e) h = config-IsAligned n e h
step-IsAligned n (activate addr) h = activate-IsAligned n addr h
step-IsAligned n (roll_back addr) h = deactivate-IsAligned n addr h
step-IsAligned n (snapshot now addr epoch peers entries) h = unfold install_raft in λ e. cc

-- A node that follows at first, as a new one and one from saved files do, has one `next_index` and one
-- `match_index` for each peer at every moment when it leads, in whatever order the calls of `tick` and
-- of the message handlers come: elections, votes, entries, configuration entries, snapshots, the
-- activation of a peer and its roll back.
pub run-IsAligned : (n : RaftNode) (es : List Event) → n.state ≡ follower → IsAligned (run n es)
unfolding run
run-IsAligned n es h = go n es (λ e. cc)
  where
    go : (n : RaftNode) (es : List Event) → IsAligned n → IsAligned (run n es)
    go n [] h = h
    go n (e ∷ es) h = go (step n e) es (step-IsAligned n e h)
