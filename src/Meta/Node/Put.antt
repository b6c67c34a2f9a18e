-- ===== src/Meta/Node/Put.antt =====
-- A put on the leader, in crates/blitz-meta/src/lib.rs.
use alpheidae.Prelude.{
  ℕ, zero, suc, ◌+◌, ◌-◌, ◌≤◌, Bool, false, some, List, [], ◌∷◌, ◌++◌, length, take, drop, ◌≡◌,
  refl, sym, map, inl, inr, Bool-cases, ap, ◌∙◌, arith, length-append, length-drop,
}
use alpheidae.Prelude.Bytes.{Str, str_eq, str_eq_refl, eq_of_str_eq}
use alpheidae.Meta.Raft
use alpheidae.Meta.Raft.{
  RaftNode, RaftState, follower, candidate, leader, RequestVote, RequestVoteResponse, AppendEntries,
  AppendEntriesResponse, is_add_peer, is_remove_peer, add_prefix, remove_prefix, append_entry,
  majority, start_election, become_leader, index_of_last, observe_term,
}
use alpheidae.Meta.Raft.Indexed.{IsIndexed, index_of_last-length}
use alpheidae.Meta.State.{Map, MetaNode, get, insert}
use alpheidae.Meta.Node.{
  propose, is_reserved, apply_committed, committed, propose_start, propose_finish, count_acks,
  on_put,
}
use alpheidae.Meta.Node.Replay.{replay, replay-append, IsSound, pending, apply_committed_lem}

pub get-insert_self : (k v : Str) (m : Map) → get k (insert k v m) ≡ some v
unfolding get insert
get-insert_self k v [] = ground (arith, str_eq_refl k)
get-insert_self k v ((j, w) ∷ m) = ground (arith, get-insert_self k v m)

get-insert_ne : (k j v : Str) (m : Map) → str_eq k j ≡ false → get j (insert k v m) ≡ get j m
unfolding get insert
get-insert_ne k j v [] h = ground arith
get-insert_ne k j v ((i, w) ∷ m) h = ground (arith, get-insert_ne k j v m, eq_of_str_eq i k)

drop_append {ℓ} :
    {A : Type ℓ} (n : ℕ) (xs ys : List A) → n ≤ length xs → drop n (xs ++ ys) ≡ drop n xs ++ ys
drop_append zero xs ys h = refl
drop_append (suc n) [] ys h = absurd (omega arith)
drop_append (suc n) (x ∷ xs) ys h = drop_append n xs ys (omega arith)

take_next {ℓ} :
    {A : Type ℓ} (xs : List A) (x : A) (ys : List A)
    → take (suc (length xs)) (xs ++ (x ∷ ys)) ≡ xs ++ (x ∷ [])
take_next [] x ys = refl
take_next (y ∷ xs) x ys = ap (◌∷◌ y) (take_next xs x ys)

-- The entry of a proposal.
abbrev pub proposed : RaftNode → Str → Str → Raft.LogEntry
proposed n key val = record {
  term = n.current_term;
  index = index_of_last n.log + 1;
  key = key;
  val = val;
}

-- The last entry is pending together with all that was not applied before it.
pending_all :
    (n : RaftNode) (log after : List Raft.LogEntry) (e : Raft.LogEntry)
    → n.log ≡ log ++ (e ∷ after)
    → n.commit_index ≡ length log + 1
    → n.last_applied ≤ length log
    → pending n ≡ drop n.last_applied log ++ (e ∷ [])
pending_all n log after e split commit le =
    let from_log : drop n.last_applied n.log ≡ drop n.last_applied log ++ (e ∷ after) =
      ap (drop n.last_applied) split ∙ drop_append n.last_applied log (e ∷ after) le in
    let count : n.commit_index - n.last_applied ≡ suc (length (drop n.last_applied log)) =
      omega (arith, length-drop n.last_applied log) in
    rw (from_log, count) (take_next (drop n.last_applied log) e after)

-- The node when the entry of a proposal is in its log, before the peers are called.
abbrev pub started : MetaNode → Str → Str → MetaNode
started node key val =
    let n = node.raft in
    record node { raft = record n { log = n.log ++ (proposed n key val ∷ []) } }

-- The node with a commit index.
abbrev pub commits : MetaNode → ℕ → MetaNode
commits node i = record node { raft = record node.raft { commit_index = i } }

-- A put is answered with an index only by the rest of the proposal.
pub propose-finish :
    (node : MetaNode) (key val : Str) (answer : Str → Bool × Bool) (wait : MetaNode → MetaNode)
    (i : ℕ)
    → (propose node key val answer wait).1 ≡ committed i
    → propose node key val answer wait
      ≡ propose_finish
          (wait (started node key val))
          (proposed node.raft key val)
          (majority node.raft)
          (map answer node.raft.peers)
unfolding propose propose_start append_entry majority
propose-finish node key val answer wait i h = elim (Bool-cases (Raft.is_leader node.raft.state)) [
  | inl l ↦ ground arith
  | inr l ↦ ground arith
]

on_put-finish :
    (node : MetaNode) (key val : Str) (answer : Str → Bool × Bool) (wait : MetaNode → MetaNode)
    (i : ℕ)
    → (on_put node key val answer wait).1 ≡ committed i
    → on_put node key val answer wait ≡ propose node key val answer wait
unfolding on_put
on_put-finish node key val answer wait i h = ground arith

-- A proposal is answered with an index only by a node that leads and after a majority has said yes;
-- then the node is what `apply_committed` makes of the node with the entry committed.
pub propose_finish_committed :
    (node : MetaNode) (e : Raft.LogEntry) (quorum : ℕ) (acks : List (Bool × Bool)) (i : ℕ)
    → (propose_finish node e quorum acks).1 ≡ committed i
    → (i ≡ e.index)
      × (quorum ≤ count_acks acks)
      × ((propose_finish node e quorum acks).0 ≡ (apply_committed (commits node e.index)).0)
unfolding propose_finish
propose_finish_committed node e quorum acks i h = ground arith

-- A put on a node with a sound log, of a key that is not reserved for Raft, where the node's other
-- threads, while the peers are called, at most append numbered entries behind that of the put and
-- apply none of these and not the put's. If it is answered with an index, then the index is that of
-- the entry, the leader and the peers that said yes to one of the two calls are a majority of the
-- cluster as it was at the start, and the catalog is the one that the threads left, put through the
-- entries before this one that they had not applied and then this one; so the key has the value. A log
-- is sound that is numbered from 1, and where what is applied is committed and what is committed is
-- there.
pub put_committed :
    (node : MetaNode) (key val : Str) (answer : Str → Bool × Bool) (wait : MetaNode → MetaNode)
    (after : List Raft.LogEntry) (i : ℕ)
    → IsSound node.raft
    → is_reserved key ≡ false
    → (wait (started node key val)).raft.log ≡ node.raft.log ++ (proposed node.raft key val ∷ after)
    → IsIndexed 0 (wait (started node key val)).raft.log
    → (wait (started node key val)).raft.last_applied ≤ length node.raft.log
    → (on_put node key val answer wait).1 ≡ committed i
    → let waited = wait (started node key val) in
      let put = on_put node key val answer wait in
      (i ≡ length node.raft.log + 1)
      × (majority node.raft ≤ count_acks (map answer node.raft.peers))
      × (put.0.state.map
          ≡ insert key val (replay waited.state.map (drop waited.raft.last_applied node.raft.log)))
      × (get key put.0.state.map ≡ some val)
unfolding replay
put_committed node key val answer wait after i s free log_is ix la h =
    let n = node.raft in
    let e = proposed n key val in
    let waited = wait (started node key val) in
    let quorum = majority n in
    let acks = map answer n.peers in
    let via = on_put-finish node key val answer wait i h in
    let finished = via ∙ propose-finish node key val answer wait i (sym (ap (λ r. r.1) via) ∙ h) in
    let (idx, enough, put_is) =
      propose_finish_committed waited e quorum acks i (sym (ap (λ r. r.1) finished) ∙ h) in
    let last = index_of_last-length n.log s.indexed in
    let sound : IsSound (commits waited e.index).raft = record {
      indexed = ix;
      applied = omega (arith, last, la);
      committed = omega (arith, last, ap length log_is, length-append n.log (e ∷ after));
    } in
    let (m, _, _, _) = apply_committed_lem (commits waited e.index) sound in
    let all =
      pending_all (commits waited e.index).raft n.log after e log_is (omega (arith, last)) la in
    let q : (on_put node key val answer wait).0.state.map
        ≡ insert key val (replay waited.state.map (drop waited.raft.last_applied n.log)) =
      ap (λ r. r.0.state.map) finished
      ∙ ap (λ x. x.state.map) put_is
      ∙ m
      ∙ ap (replay waited.state.map) all
      ∙ replay-append waited.state.map (drop waited.raft.last_applied n.log) (e ∷ [])
      ∙ rw free in
    (omega (arith, idx, last), enough, q, ap (get key) q ∙ get-insert_self key val _)
