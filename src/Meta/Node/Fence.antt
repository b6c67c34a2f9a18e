-- ===== src/Meta/Node/Fence.antt =====
-- Epochs in crates/blitz-meta/src/lib.rs: replicated entries, promotions and elections.
use alpheidae.Prelude.{
  Option, ℕ, ◌<◌, ◌≤◌, Bool, true, false, List, [], ◌∷◌, ◌≡◌, refl, ◌∙◌, ◌⊎◌, inl, inr, arith,
  Bool-cases,
}
use alpheidae.Prelude.Bytes.{Str}
use alpheidae.Meta.Raft
use alpheidae.Meta.Raft.{
  RaftNode, RaftState, follower, candidate, leader, RequestVote, RequestVoteResponse, AppendEntries,
  AppendEntriesResponse, is_add_peer, is_remove_peer, add_prefix, remove_prefix, append_entry,
  majority, start_election, become_leader, index_of_last, observe_term,
}
use alpheidae.Meta.Raft.Apply.{take_applicable}
use alpheidae.Meta.State.{Map, MetaNode}
use alpheidae.Meta.Node.{
  is_config, apply_one, apply_all, push_some, apply_committed, closed, code, propose_start,
  propose_finish, on_put, on_get, on_repl, on_promote, demote, on_request_vote, on_append_entries,
  take_snapshot, propose,
}
use alpheidae.Meta.Node.Put.{get-insert_self}
use alpheidae.Meta.Raft.Append.{handle_append_entries}
use alpheidae.Meta.Node.{value, tick_candidate, count_votes, is_candidate}
use alpheidae.Prelude.{◌++◌, ◌||◌, ◌&&◌, some, none, if◌then◌else◌}
use alpheidae.Prelude.Bytes.{str_eq}
use alpheidae.Meta.Raft.Members.{is_peer, activate_peer, deactivate}

-- What changes a node, but for `tick`: the messages, and `kill`. A proposal comes in two halves, since
-- other messages may be handled while the peers are called: the beginning of a put, of the addition or
-- the removal of a peer, and then `answered`. So does the activation of a new peer, where
-- `roll_back` follows when the snapshot could not be installed.
pub data Message : Type 0 where
  put : Str → Str → Message
  add_peer remove_peer : Str → Message
  answered : Raft.LogEntry → ℕ → List (Bool × Bool) → Message
  activate roll_back : Str → Message
  repl : ℕ → ℕ → Str → Str → Message
  promote : ℕ → Message
  vote : ℕ → RequestVote → Message
  append : ℕ → AppendEntries → Message
  snapshot : ℕ → ℕ → List Str → List Raft.LogEntry → Map → Message
  kill : Message

-- The beginning of a proposal, under the guard that the three handlers share.
unfoldable pub begin : MetaNode → Str → Str → MetaNode
begin node key val =
    if node.state.alive && node.state.is_leader
    then elim (propose_start node key val) [ none ↦ node | some (after, e) ↦ after ]
    else node

-- A snapshot on which `apply_snapshot` blocks has changed the node by then all the same.
unfoldable pub receive : MetaNode → Message → MetaNode
unfolding begin
receive node (put key val) = begin node key val
receive node (add_peer addr) =
    if is_peer addr node.raft.peers || str_eq addr node.addr
    then node
    else begin node (add_prefix ++ addr) []
receive node (remove_peer addr) = begin node (remove_prefix ++ addr) []
receive node (answered e quorum acks) = (propose_finish node e quorum acks).0
receive node (activate addr) = record node { raft = activate_peer node.raft addr }
receive node (roll_back addr) = record node { raft = deactivate node.raft addr }
receive node (repl epoch index key val) = (on_repl node epoch index key val).0
receive node (promote epoch) = (on_promote node epoch).0
receive node (vote now req) = (on_request_vote now node req).0
receive node (append now req) = (on_append_entries now node req).0
receive node (snapshot now epoch peers entries m) = take_snapshot now node epoch peers entries m
receive node kill = let st = node.state in record node { state = record st { alive = false } }

unfoldable pub receive_all : MetaNode → List Message → MetaNode
receive_all node [] = node
receive_all node (m ∷ ms) = receive_all (receive node m) ms

abbrev SameEpoch : MetaNode → MetaNode → Type 0
SameEpoch a b = a.state.epoch ≡ b.state.epoch

apply_one-epoch : (node : MetaNode) (e : Raft.LogEntry) → SameEpoch (apply_one node e).0 node
unfolding apply_one
apply_one-epoch node e = ground arith

apply_all-epoch :
    (es : List Raft.LogEntry) (node : MetaNode) (added : List Str)
    → SameEpoch (apply_all node es added).0 node
unfolding apply_all
apply_all-epoch [] node added = refl
apply_all-epoch (e ∷ es) node added =
    apply_all-epoch es (apply_one node e).0 (push_some added (apply_one node e).1)
    ∙ apply_one-epoch node e

apply_committed-epoch : (node : MetaNode) → SameEpoch (apply_committed node).0 node
unfolding apply_committed
apply_committed-epoch node =
    apply_all-epoch (take_applicable node.raft).1
      (record node { raft = (take_applicable node.raft).0 }) []

demote-epoch : (node : MetaNode) → SameEpoch (demote node) node
unfolding demote
demote-epoch node = ground arith

propose_finish-epoch :
    (node : MetaNode) (e : Raft.LogEntry) (quorum : ℕ) (acks : List (Bool × Bool))
    → SameEpoch (propose_finish node e quorum acks).0 node
unfolding propose_finish
propose_finish-epoch node e quorum acks =
    let raft = node.raft in
    ground
      (arith, apply_committed-epoch (record node { raft = record raft { commit_index = e.index } }))

begin-epoch : (node : MetaNode) (key val : Str) → SameEpoch (begin node key val) node
unfolding begin propose_start
begin-epoch node key val = elim (Bool-cases (Raft.is_leader node.raft.state)) [
  | inl l ↦ ground arith
  | inr l ↦ ground arith
]

-- No message lowers the epoch.
receive-epoch : (node : MetaNode) (m : Message) → node.state.epoch ≤ (receive node m).state.epoch
unfolding receive
receive-epoch node (put key val) = omega (arith, begin-epoch node key val)
receive-epoch node (add_peer addr) = ground (arith, begin-epoch node (add_prefix ++ addr) [])
receive-epoch node (remove_peer addr) = omega (arith, begin-epoch node (remove_prefix ++ addr) [])
receive-epoch node (answered e quorum acks) = omega (arith, propose_finish-epoch node e quorum acks)
receive-epoch node (activate addr) = omega arith
receive-epoch node (roll_back addr) = omega arith
receive-epoch node (repl epoch index key val) = unfold on_repl in ground arith
receive-epoch node (promote epoch) = unfold on_promote in ground arith
receive-epoch node (vote now req) = unfold on_request_vote demote in ground arith
receive-epoch node (append now req) =
    unfold on_append_entries in
    omega (
      arith,
      apply_committed-epoch
          (demote (record node { raft = (handle_append_entries now node.raft req).0 })),
      demote-epoch (record node { raft = (handle_append_entries now node.raft req).0 }),
    )
receive-epoch node (snapshot now epoch peers entries m) = unfold take_snapshot in omega arith
receive-epoch node kill = omega arith

receive_all-epoch :
    (node : MetaNode) (ms : List Message) → node.state.epoch ≤ (receive_all node ms).state.epoch
unfolding receive_all
receive_all-epoch node [] = omega arith
receive_all-epoch node (m ∷ ms) =
    omega (arith, receive-epoch node m, receive_all-epoch (receive node m) ms)

taken :
    (node : MetaNode) (epoch index : ℕ) (key val : Str)
    → (on_repl node epoch index key val).1 ≡ code 1
    → (receive node (repl epoch index key val)).state.epoch ≡ epoch
unfolding receive on_repl
taken node epoch index key val h = ground arith

refused :
    (node : MetaNode) (old i : ℕ) (k v : Str)
    → old < node.state.epoch
    → ((on_repl node old i k v).0 ≡ node)
      × (((on_repl node old i k v).1 ≡ code 0) ⊎ ((on_repl node old i k v).1 ≡ closed))
unfolding on_repl
refused node old i k v lt = elim (Bool-cases node.state.alive) [
  | inl a ↦ (ground arith, inl (ground arith))
  | inr a ↦ (ground arith, inr (ground arith))
]

-- Fencing. Once a node has taken a replicated entry of some epoch, then whatever messages come in
-- between, in whatever order with the halves of proposals and activations (but no ticks, so no
-- election), an entry of an earlier epoch changes nothing, and is answered with 0, or with nothing
-- when the node was killed.
pub old_epoch_is_fenced :
    (node : MetaNode) (epoch index : ℕ) (key val : Str) (ms : List Message) (old i : ℕ) (k v : Str)
    → (on_repl node epoch index key val).1 ≡ code 1
    → old < epoch
    → let later = receive_all (receive node (repl epoch index key val)) ms in
      ((on_repl later old i k v).0 ≡ later)
      × (((on_repl later old i k v).1 ≡ code 0) ⊎ ((on_repl later old i k v).1 ≡ closed))
old_epoch_is_fenced node epoch index key val ms old i k v h lt =
    refused (receive_all (receive node (repl epoch index key val)) ms) old i k v (
      omega (
        arith,
        receive_all-epoch (receive node (repl epoch index key val)) ms,
        taken node epoch index key val h,
      ))

-- An election lifts the fence. A candidate that takes a promotion to some epoch refuses an entry of an
-- earlier one with 0; when it then wins the election of its term, an entry of the term or of a later
-- epoch, below that of the promotion, is taken.
pub election_lifts_fence :
    (now : ℕ) (node : MetaNode) (epoch : ℕ) (answers : List (Option RequestVoteResponse))
    (old index : ℕ) (key val : Str)
    → (on_promote node epoch).1 ≡ code 1
    → is_candidate node.raft.state ≡ true
    → majority node.raft ≤ count_votes node.raft.current_term answers
    → node.raft.current_term ≤ old
    → old < epoch
    → let promoted = (on_promote node epoch).0 in
      ((on_repl promoted old index key val).1 ≡ code 0)
      × ((on_repl (tick_candidate now promoted answers) old index key val).1 ≡ code 1)
unfolding on_promote on_repl tick_candidate
election_lifts_fence now node epoch answers old index key val h c quorum after before =
    (ground arith, ground arith)

-- A promotion makes the node a leader of the catalog, and leaves its Raft half as it was: unless that
-- leads already, every put is then answered with `NOT_LEADER` and changes nothing.
pub promoted_refuses_puts :
    (node : MetaNode) (epoch : ℕ) (key val : Str) (answer : Str → Bool × Bool)
    (wait : MetaNode → MetaNode)
    → (on_promote node epoch).1 ≡ code 1
    → Raft.is_leader node.raft.state ≡ false
    → ((on_promote node epoch).0.state.is_leader ≡ true)
      × (on_put (on_promote node epoch).0 key val answer wait
          ≡ ((on_promote node epoch).0, code 2, []))
unfolding on_promote on_put propose propose_start
promoted_refuses_puts node epoch key val answer wait h f = ground arith

-- A replicated entry with a key of the catalog, taken by a node, is served by it at once, while its
-- Raft half, and so its commit index, stays as it was: no majority is waited for.
pub replicated_is_visible :
    (node : MetaNode) (epoch index : ℕ) (key val : Str)
    → (on_repl node epoch index key val).1 ≡ code 1
    → is_config (record { term = epoch; index = index; key = key; val = val }) ≡ false
    → (on_get (on_repl node epoch index key val).0 key ≡ value val)
      × ((on_repl node epoch index key val).0.raft ≡ node.raft)
unfolding on_repl on_get
replicated_is_visible node epoch index key val h c =
    ground (arith, get-insert_self key val node.state.map)
