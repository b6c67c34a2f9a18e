-- ===== src/Meta/Node.antt =====
-- crates/blitz-meta/src/lib.rs: what a catalog node does with its state on a message, a proposal and a
-- tick. A message is decoded already, and a reply is not yet encoded. What peers answer to the calls
-- that the node makes while it works is an argument.
pub mod Replay
pub mod Fence
pub mod Put
pub mod Join
pub mod Start
pub mod Peers
use alpheidae.Prelude.{
  ℕ, zero, suc, ◌+◌, ◌<◌, max, Bool, true, false, ◌&&◌, ◌||◌, not, Option, none, some, List, [],
  ◌∷◌, ◌++◌, ltb, leb, ◌==◌, if◌then◌else◌, length, keep, map, any, erase_idx,
}
use alpheidae.Prelude.Bytes.{Str, ascii, str_eq, strip_prefix}
use alpheidae.Meta.Raft
use alpheidae.Meta.Raft.{
  RaftNode, RaftState, follower, candidate, leader, RequestVote, RequestVoteResponse, AppendEntries,
  AppendEntriesResponse, is_add_peer, is_remove_peer, add_prefix, remove_prefix, append_entry,
  majority, start_election, become_leader, election_timeout_expired, heartbeat_timeout_expired,
  reset_heartbeat_timeout,
}
use alpheidae.Meta.Raft.Members.{apply_config_entry, is_peer}
use alpheidae.Meta.Raft.Vote.{handle_request_vote}
use alpheidae.Meta.Raft.Append.{handle_append_entries}
use alpheidae.Meta.Raft.Apply.{take_applicable}
use alpheidae.Meta.Raft.Snapshot.{install_raft}
use alpheidae.Meta.State.{LogEntry, Map, NodeState, MetaNode, get, insert}

abbrev pub is_some {ℓ} : {A : Type ℓ} → Option A → Bool
is_some none = false
is_some (some a) = true

abbrev pub is_follower : RaftState → Bool
is_follower follower = true
is_follower _ = false

abbrev pub is_candidate : RaftState → Bool
is_candidate candidate = true
is_candidate _ = false

abbrev pub is_config : Raft.LogEntry → Bool
is_config e = is_some (strip_prefix add_prefix e.key) || is_some (strip_prefix remove_prefix e.key)

abbrev pub is_reserved : Str → Bool
is_reserved key = is_some (strip_prefix (ascii "__raft/") key)

-- A catalog entry for a Raft entry.
abbrev pub catalog_entry : Raft.LogEntry → LogEntry
catalog_entry e = record { epoch = e.term; index = e.index; key = e.key; val = e.val }

-- The body of the loop of `apply_committed`, with the peer that an addition leaves to activate.
unfoldable pub apply_one : MetaNode → Raft.LogEntry → MetaNode × Option Str
apply_one node e =
    if is_config e
    then (let (raft, added) = apply_config_entry node.raft e in
        (record node { raft = raft }, added))
    else if not (is_reserved e.key)
    then (let st = node.state in
        (
          record node {
            state = record st {
              map = insert e.key e.val st.map;
              log = st.log ++ (catalog_entry e ∷ []);
            };
          },
          none,
        ))
    else (node, none)

abbrev pub push_some {ℓ} : {A : Type ℓ} → List A → Option A → List A
push_some out none = out
push_some out (some a) = out ++ (a ∷ [])

unfoldable pub apply_all : MetaNode → List Raft.LogEntry → List Str → MetaNode × List Str
apply_all node [] added = (node, added)
apply_all node (e ∷ es) added =
    apply_all (apply_one node e).0 es (push_some added (apply_one node e).1)

unfoldable pub apply_committed : MetaNode → MetaNode × List Str
apply_committed node =
    let (raft, ready) = take_applicable node.raft in
    apply_all (record node { raft = raft }) ready []

-- What a handler writes back: nothing at all, one byte, or a byte and what follows it.
pub data Reply : Type 0 where
  closed : Reply
  code : ℕ → Reply
  value : Str → Reply
  committed : ℕ → Reply
  status : Bool → ℕ → ℕ → ℕ → Reply
  voted : RequestVoteResponse → Reply
  appended : AppendEntriesResponse → Reply

-- `leader_propose` up to the calls to the peers: the entry goes into the leader's log.
unfoldable pub propose_start : MetaNode → Str → Str → Option (MetaNode × Raft.LogEntry)
propose_start node key val =
    if Raft.is_leader node.raft.state
    then (let (raft, e) = append_entry node.raft key val in some (record node { raft = raft }, e))
    else none

-- The yeses, the leader's own included: `ae_ok || repl_ok` for each peer.
abbrev pub count_acks : List (Bool × Bool) → ℕ
count_acks [] = 1
count_acks ((ae_ok, repl_ok) ∷ as') = count_acks as' + (if ae_ok || repl_ok then 1 else 0)

-- The rest, on the node as it is when the peers have answered, with the majority from the start.
unfoldable pub propose_finish :
    MetaNode → Raft.LogEntry → ℕ → List (Bool × Bool) → MetaNode × Reply × List Str
propose_finish node e quorum acks =
    if ltb (count_acks acks) quorum
    then (node, code 3, [])
    else if Raft.is_leader node.raft.state
    then (let raft = node.raft in
        let (after, added) =
          apply_committed (record node { raft = record raft { commit_index = e.index } }) in
        (after, committed e.index, added))
    else (node, code 2, [])

-- `leader_propose`. The locks are free while the peers are called: `wait` is what the node's other
-- threads make of it in that time, and `answer` what each peer says to the two calls.
unfoldable pub propose :
    MetaNode → Str → Str → (Str → Bool × Bool) → (MetaNode → MetaNode) → MetaNode × Reply × List Str
propose node key val answer wait = elim (propose_start node key val) [
  | none ↦ (node, code 2, [])
  | some (started, e) ↦
      propose_finish (wait started) e (majority started.raft) (map answer started.raft.peers)
]

unfoldable pub on_put :
    MetaNode → Str → Str → (Str → Bool × Bool) → (MetaNode → MetaNode) → MetaNode × Reply × List Str
unfolding propose
on_put node key val answer wait =
    if not node.state.alive
    then (node, closed, [])
    else if not node.state.is_leader
    then (node, code 2, [])
    else propose node key val answer wait

unfoldable pub on_get : MetaNode → Str → Reply
on_get node key =
    if not node.state.alive
    then closed
    else elim (get key node.state.map) [ none ↦ code 0 | some v ↦ value v ]

-- `OP_REPL`: the older path, which writes to the map at once.
unfoldable pub on_repl : MetaNode → ℕ → ℕ → Str → Str → MetaNode × Reply
on_repl node epoch index key val =
    let st = node.state in
    if not st.alive
    then (node, closed)
    else if ltb epoch st.epoch
    then (node, code 0)
    else let fenced = record st { epoch = epoch; is_leader = false } in
      let e : Raft.LogEntry = record { term = epoch; index = index; key = key; val = val } in
      if is_config e
      then (record node { state = fenced; raft = (apply_config_entry node.raft e).0 }, code 1)
      else (
        record node {
          state = record fenced {
            log = st.log ++ (catalog_entry e ∷ []);
            map = insert key val st.map;
          };
        },
        code 1,
      )

unfoldable pub on_promote : MetaNode → ℕ → MetaNode × Reply
on_promote node epoch =
    let st = node.state in
    if not st.alive
    then (node, closed)
    else if ltb st.epoch epoch
    then (record node { state = record st { epoch = epoch; is_leader = true } }, code 1)
    else (node, code 0)

unfoldable pub on_status : MetaNode → Reply
on_status node =
    status node.state.is_leader node.state.epoch (length node.state.log) (length node.raft.peers)

-- A node whose Raft half follows does not lead the catalog.
unfoldable pub demote : MetaNode → MetaNode
demote node =
    let st = node.state in
    if is_follower node.raft.state
    then record node { state = record st { is_leader = false } }
    else node

unfoldable pub on_request_vote : ℕ → MetaNode → RequestVote → MetaNode × Reply
on_request_vote now node req =
    if node.state.awaiting_snapshot
    then (node, voted (record { term = 0; vote_granted = false }))
    else let (raft, resp) = handle_request_vote now node.raft req in
      (demote (record node { raft = raft }), voted resp)

unfoldable pub on_append_entries : ℕ → MetaNode → AppendEntries → MetaNode × Reply
on_append_entries now node req =
    let (raft, resp) = handle_append_entries now node.raft req in
    ((apply_committed (demote (record node { raft = raft }))).0, appended resp)

-- A snapshot goes into the Raft half and into the catalog.
unfoldable pub take_snapshot : ℕ → MetaNode → ℕ → List Str → List Raft.LogEntry → Map → MetaNode
take_snapshot now node epoch peers entries m =
    let st = node.state in
    record node {
      raft = install_raft now node.addr node.raft epoch peers entries;
      state = record st {
        epoch = max st.epoch epoch;
        is_leader = false;
        awaiting_snapshot = false;
        map = m;
        log = map catalog_entry (keep (λ e. not (is_reserved e.key)) entries);
      };
    }

-- The loop over the new log holds the Raft lock from its head on, and takes it again for the first
-- configuration entry. `none` is a call that blocks there for good.
unfoldable pub apply_snapshot :
    ℕ → MetaNode → ℕ → List Str → List Raft.LogEntry → Map → Option MetaNode
apply_snapshot now node epoch peers entries m =
    if any is_config entries then none else some (take_snapshot now node epoch peers entries m)

-- The votes of a candidate: its own, and each answer that grants one in its term.
abbrev pub count_votes : ℕ → List (Option RequestVoteResponse) → ℕ
count_votes term [] = 1
count_votes term (none ∷ rs) = count_votes term rs
count_votes term (some r ∷ rs) =
    count_votes term rs + (if r.vote_granted && r.term == term then 1 else 0)

unfoldable pub tick_follower : ℕ → RaftNode → RaftNode
tick_follower now n =
    if is_follower n.state && election_timeout_expired now n then start_election now n else n

unfoldable pub tick_candidate : ℕ → MetaNode → List (Option RequestVoteResponse) → MetaNode
tick_candidate now node answers =
    let st = node.state in
    if is_candidate node.raft.state
      && leb (majority node.raft) (count_votes node.raft.current_term answers)
    then record node {
      raft = become_leader now node.raft;
      state = record st { is_leader = true; epoch = node.raft.current_term };
    }
    else node

unfoldable pub tick_leader : ℕ → RaftNode → RaftNode
tick_leader now n =
    if Raft.is_leader n.state && heartbeat_timeout_expired now n
    then reset_heartbeat_timeout now n
    else n

-- One tick, with the answers of the peers to the vote requests that it sends.
unfoldable pub tick : ℕ → MetaNode → List (Option RequestVoteResponse) → MetaNode
unfolding tick_follower tick_candidate tick_leader
tick now node answers =
    if node.state.awaiting_snapshot
    then node
    else let after =
        tick_candidate now (record node { raft = tick_follower now node.raft }) answers in
      record after { raft = tick_leader now after.raft }
