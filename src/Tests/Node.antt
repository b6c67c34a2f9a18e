-- ===== src/Tests/Node.antt =====
-- Runs of a catalog node of crates/blitz-meta/src/lib.rs.
use alpheidae.Prelude.{
  ℕ, map, ◌++◌, if◌then◌else◌, ◌+◌, ◌≤◌, Bool, true, false, Option, none, some, List, [], ◌∷◌,
  length, drop, ◌≡◌, ◌⊎◌, refl, arith,
}
use alpheidae.Prelude.Bytes.{Str, ascii, str_eq}
use alpheidae.Meta.Raft
use alpheidae.Meta.Raft.{
  RaftNode, RequestVote, RequestVoteResponse, leader, candidate, new, majority, cluster_size,
}
use alpheidae.Meta.State.{NodeState, MetaNode, get, insert}
use alpheidae.Meta.Node.{
  apply_committed, code, committed, closed, value, on_put, on_get, on_repl, on_promote,
  apply_snapshot, tick, tick_candidate, propose, count_acks, propose_start, propose_finish,
}
use alpheidae.Meta.Node.Replay.{IsSound, pending, replay, apply_committed_lem}
use alpheidae.Meta.Node.Put.{put_committed}
use alpheidae.Meta.Node.Fence.{
  Message, put, repl, promote, kill, receive, receive_all, old_epoch_is_fenced, add_peer, roll_back,
  election_lifts_fence, promoted_refuses_puts, replicated_is_visible,
}
use alpheidae.Meta.Node.Peers.{on_add_peer, activate_one, failed_activation_restores}
use alpheidae.Meta.Raft.Members.{is_peer}
use alpheidae.Meta.Raft.Members.Aligned.{IsAligned}
use alpheidae.Meta.Node.Join.{apply_snapshot_lem, added_peer_blocks}

abbrev a : Str
a = ascii "a"

abbrev k : Str
k = ascii "k"

abbrev v : Str
v = ascii "v"

abbrev entry : ℕ → Raft.LogEntry
entry index = record { term = 1; index = index; key = k; val = v }

-- A leader of term 1 with two peers: it has two entries, and has applied none.
abbrev raft : RaftNode
raft = record (new 0 a (ascii "b" ∷ ascii "c" ∷ [])) {
  current_term = 1;
  state = leader;
  log = entry 1 ∷ entry 2 ∷ [];
  commit_index = 2;
}

abbrev st : NodeState
st = record {
  epoch = 1;
  is_leader = true;
  map = [];
  log = [];
  alive = true;
  awaiting_snapshot = false;
}

abbrev node : MetaNode
node = record { addr = a; state = st; raft = raft }

raft-IsSound : IsSound raft
unfolding new
raft-IsSound = record {
  indexed = (refl, (refl, tt));
  applied = omega arith;
  committed = omega arith;
}

apply_committed_lem_example :
    ((apply_committed node).0.state.map ≡ replay [] (pending raft))
    × ((apply_committed node).0.raft.log ≡ raft.log)
    × ((apply_committed node).0.raft.commit_index ≡ raft.commit_index)
    × ((apply_committed node).0.raft.last_applied ≡ raft.commit_index)
apply_committed_lem_example = apply_committed_lem node raft-IsSound

-- One peer takes the entry and the other does not answer; meanwhile the leader has appended another.
abbrev answer : Str → Bool × Bool
answer p = if str_eq p (ascii "b") then (true, false) else (false, false)

abbrev behind_it : Raft.LogEntry
behind_it = record { term = 1; index = 4; key = k; val = a }

abbrev wait : MetaNode → MetaNode
wait x = record x { raft = record x.raft { log = x.raft.log ++ (behind_it ∷ []) } }

answered_put : (on_put node a v answer wait).1 ≡ committed 3
unfolding on_put propose propose_start propose_finish majority Raft.append_entry new
answered_put = refl

put_committed_example :
    (3 ≡ length raft.log + 1)
    × (majority raft ≤ count_acks (map answer raft.peers))
    × ((on_put node a v answer wait).0.state.map
        ≡ insert a v (replay [] (drop raft.last_applied raft.log)))
    × (get a (on_put node a v answer wait).0.state.map ≡ some v)
unfolding new
put_committed_example =
    put_committed node a v answer wait (behind_it ∷ []) 3 raft-IsSound refl refl
      (refl, (refl, (refl, (refl, tt)))) (omega arith) answered_put

-- Without the peer there is no majority.
no_quorum : (on_put node a v (λ p. (false, false)) (λ n. n)).1 ≡ code 3
unfolding on_put propose propose_start propose_finish majority Raft.append_entry new
no_quorum = refl

abbrev between : List Message
between = promote 6 ∷ put k v ∷ add_peer (ascii "d") ∷ roll_back (ascii "d") ∷ kill ∷ []

taken_repl : (on_repl node 5 3 k a).1 ≡ code 1
unfolding on_repl
taken_repl = refl

old_epoch_is_fenced_example :
    ((on_repl (receive_all (receive node (repl 5 3 k a)) between) 4 9 k v).0
      ≡ receive_all (receive node (repl 5 3 k a)) between)
    × (((on_repl (receive_all (receive node (repl 5 3 k a)) between) 4 9 k v).1 ≡ code 0)
        ⊎ ((on_repl (receive_all (receive node (repl 5 3 k a)) between) 4 9 k v).1 ≡ closed))
old_epoch_is_fenced_example =
    old_epoch_is_fenced node 5 3 k a between 4 9 k v taken_repl (omega arith)

-- A candidate of term 2 whose epoch is 7 already.
abbrev standing : MetaNode
standing = record node {
  state = record st { epoch = 7; is_leader = false };
  raft = record raft { current_term = 2; state = candidate };
}

abbrev answers : List (Option RequestVoteResponse)
answers = some (record { term = 2; vote_granted = true }) ∷ none ∷ []

accepted : (on_promote standing 8).1 ≡ code 1
unfolding on_promote
accepted = refl

-- Promoted to 8 and elected in term 2, it takes an entry of epoch 5.
election_lifts_fence_example :
    ((on_repl (on_promote standing 8).0 5 3 k a).1 ≡ code 0)
    × ((on_repl (tick_candidate 9 (on_promote standing 8).0 answers) 5 3 k a).1 ≡ code 1)
unfolding majority cluster_size new
election_lifts_fence_example =
    election_lifts_fence 9 standing 8 answers 5 3 k a accepted refl (omega arith) (omega arith)
      (omega arith)

promoted_refuses_puts_example :
    ((on_promote standing 8).0.state.is_leader ≡ true)
    × (on_put (on_promote standing 8).0 k v answer wait ≡ ((on_promote standing 8).0, code 2, []))
promoted_refuses_puts_example = promoted_refuses_puts standing 8 k v answer wait accepted refl

replicated_is_visible_example :
    (on_get (on_repl node 5 3 k a).0 k ≡ value a) × ((on_repl node 5 3 k a).0.raft ≡ raft)
replicated_is_visible_example = replicated_is_visible node 5 3 k a taken_repl refl

abbrev joiner : MetaNode
joiner = record {
  addr = ascii "d";
  state = record st { epoch = 0; is_leader = false; awaiting_snapshot = true };
  raft = new 0 (ascii "d") [];
}

-- A joiner waits.
waits_test : tick 5000 joiner [] ≡ joiner
unfolding tick new
waits_test = refl

apply_snapshot_lem_example :
    (after : MetaNode) × (apply_snapshot 9 joiner 1
        (a ∷ ascii "d" ∷ [])
        (entry 1 ∷ entry 2 ∷ [])
        ((k, v) ∷ [])
      ≡ some after)
    × (after.state.map ≡ ((k, v) ∷ []))
    × (after.raft.log ≡ entry 1 ∷ entry 2 ∷ [])
    × (after.state.awaiting_snapshot ≡ false)
    × (after.state.is_leader ≡ false)
    × IsSound after.raft
    × (after.raft.last_applied ≡ 2)
    × (pending after.raft ≡ [])
apply_snapshot_lem_example =
    apply_snapshot_lem 9 joiner 1 (a ∷ ascii "d" ∷ []) (entry 1 ∷ entry 2 ∷ []) ((k, v) ∷ [])
      (refl, (refl, tt)) refl

added : (on_add_peer node (ascii "d") answer wait).1 ≡ committed 3
unfolding on_add_peer propose propose_start propose_finish majority Raft.append_entry new
added = refl

added_peer_blocks_example :
    apply_snapshot 9 joiner 1 [] (on_add_peer node (ascii "d") answer wait).0.raft.log [] ≡ none
unfolding new
added_peer_blocks_example =
    added_peer_blocks node (ascii "d") answer wait (behind_it ∷ []) 3 raft-IsSound refl refl refl
      (refl, (refl, (refl, (refl, tt)))) (omega arith) added 9 joiner 1 [] []

-- The leader's indices stand beside its peers.
abbrev leading : RaftNode
leading = record raft { next_index = 3 ∷ 3 ∷ []; match_index = 0 ∷ 0 ∷ [] }

leading-IsAligned : IsAligned leading
unfolding new
leading-IsAligned h = (refl, refl)

d_is_new : is_peer (ascii "d") leading.peers ≡ false
unfolding new
d_is_new = refl

failed_activation_restores_example : activate_one leading (ascii "d") false ≡ leading
failed_activation_restores_example =
    failed_activation_restores leading (ascii "d") refl leading-IsAligned d_is_new
