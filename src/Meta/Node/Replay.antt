-- ===== src/Meta/Node/Replay.antt =====
-- `apply_committed` of crates/blitz-meta/src/lib.rs against the replay of a log.
use alpheidae.Prelude.{
  ◌-◌, ◌≤◌, true, List, [], ◌∷◌, ◌++◌, if◌then◌else◌, length, take, drop, ◌≡◌, refl, sym, ap, ◌∙◌,
  inl, inr, arith, Bool-cases, Option-cases,
}
use alpheidae.Prelude.Bytes.{Str, ascii, strip_prefix}
use alpheidae.Meta.Raft
use alpheidae.Meta.Raft.{
  RaftNode, RaftState, follower, candidate, leader, RequestVote, RequestVoteResponse, AppendEntries,
  AppendEntriesResponse, is_add_peer, is_remove_peer, add_prefix, remove_prefix, append_entry,
  majority, start_election, become_leader, index_of_last, observe_term,
}
use alpheidae.Meta.Raft.Members.{apply_config_entry, apply_add, apply_remove, remove_at, position}
use alpheidae.Meta.Raft.Indexed.{IsIndexed}
use alpheidae.Meta.Raft.Apply.Order.{take_applicable_lem}
use alpheidae.Meta.State.{Map, MetaNode, insert}
use alpheidae.Meta.Node.{
  is_some, is_config, is_reserved, apply_one, apply_all, push_some, apply_committed,
}

-- The map that the catalog entries of a log build.
unfoldable pub replay : Map → List Raft.LogEntry → Map
replay m [] = m
replay m (e ∷ es) = replay (if is_reserved e.key then m else insert e.key e.val m) es

pub replay-append :
    (m : Map) (xs ys : List Raft.LogEntry) → replay m (xs ++ ys) ≡ replay (replay m xs) ys
unfolding replay
replay-append m [] ys = refl
replay-append m (x ∷ xs) ys =
    replay-append (if is_reserved x.key then m else insert x.key x.val m) xs ys

strip_prefix-append :
    (p q s : Str) → is_some (strip_prefix (p ++ q) s) ≡ true → is_some (strip_prefix p s) ≡ true
strip_prefix-append [] q s h = refl
strip_prefix-append (c ∷ p) q [] h = cc
strip_prefix-append (c ∷ p) q (d ∷ s) h = ground (arith, strip_prefix-append p q s)

-- A configuration entry has a reserved key.
config-reserved : (e : Raft.LogEntry) → is_config e ≡ true → is_reserved e.key ≡ true
config-reserved e h = ground (
  arith,
  strip_prefix-append (ascii "__raft/") (ascii "add:") e.key,
  strip_prefix-append (ascii "__raft/") (ascii "remove:") e.key,
)

-- The log of a node, and how far it is committed and applied.
abbrev pub SameLog : RaftNode → RaftNode → Type 0
SameLog m n =
    (m.log ≡ n.log) × (m.commit_index ≡ n.commit_index) × (m.last_applied ≡ n.last_applied)

apply_remove-SameLog : (n : RaftNode) (addr : Str) → SameLog (apply_remove n addr) n
unfolding apply_remove remove_at
apply_remove-SameLog n addr = elim (Option-cases (position addr n.peers)) [
  | inl e ↦ rw e (ground arith)
  | inr (i, e) ↦ rw e (ground arith)
]

pub config-SameLog : (n : RaftNode) (e : Raft.LogEntry) → SameLog (apply_config_entry n e).0 n
unfolding apply_config_entry apply_add
config-SameLog n e = elim (Option-cases (is_add_peer e)) [
  | inl p ↦ elim (Option-cases (is_remove_peer e)) [
    | inl q ↦ ground arith
    | inr (a, q) ↦ ground (arith, apply_remove-SameLog n a)
  ]
  | inr (a, p) ↦ ground arith
]

-- One entry: the map takes it, unless its key is reserved, and the log stays.
apply_one_lem :
    (node : MetaNode) (e : Raft.LogEntry)
    → ((apply_one node e).0.state.map ≡ replay node.state.map (e ∷ []))
      × SameLog (apply_one node e).0.raft node.raft
unfolding apply_one replay
apply_one_lem node e = elim (Bool-cases (is_config e)) [
  | inl c ↦ ground (arith, config-reserved e c, config-SameLog node.raft e)
  | inr c ↦ ground arith
]

pub SameLog-trans : (a b c : RaftNode) → SameLog a b → SameLog b c → SameLog a c
SameLog-trans a b c (x, y, z) (u, v, w) = (x ∙ u, y ∙ v, z ∙ w)

apply_all_lem :
    (es : List Raft.LogEntry) (node : MetaNode) (added : List Str)
    → ((apply_all node es added).0.state.map ≡ replay node.state.map es)
      × SameLog (apply_all node es added).0.raft node.raft
unfolding apply_all replay
apply_all_lem [] node added = (refl, (refl, refl, refl))
apply_all_lem (e ∷ es) node added =
    let (m, s) = apply_one_lem node e in
    let (ms, ss) = apply_all_lem es (apply_one node e).0 (push_some added (apply_one node e).1) in
    (
      ms ∙ ap (λ x. replay x es) m ∙ sym (replay-append node.state.map (e ∷ []) es),
      SameLog-trans
          (apply_all (apply_one node e).0 es (push_some added (apply_one node e).1)).0.raft
          (apply_one node e).0.raft node.raft ss s,
    )

-- The log is numbered from 1, and what is applied is committed, and what is committed is there.
pub record IsSound (n : RaftNode) : Type 0 where
  pub indexed : IsIndexed 0 n.log
  pub applied : n.last_applied ≤ n.commit_index
  pub committed : n.commit_index ≤ length n.log

-- The committed entries that are still to be applied.
abbrev pub pending : RaftNode → List Raft.LogEntry
pending n = take (n.commit_index - n.last_applied) (drop n.last_applied n.log)

-- On a node with a sound log, `apply_committed` puts the catalog through every committed entry that
-- was not applied, in the order of the log, keeps the log and the commit index, and marks them as
-- applied. A log is sound that is numbered from 1, and where what is applied is committed and what
-- is committed is there.
pub apply_committed_lem :
    (node : MetaNode)
    → IsSound node.raft
    → ((apply_committed node).0.state.map ≡ replay node.state.map (pending node.raft))
      × ((apply_committed node).0.raft.log ≡ node.raft.log)
      × ((apply_committed node).0.raft.commit_index ≡ node.raft.commit_index)
      × ((apply_committed node).0.raft.last_applied ≡ node.raft.commit_index)
unfolding apply_committed
apply_committed_lem node s =
    let n = node.raft in
    let e = take_applicable_lem n s.indexed s.applied s.committed in
    let (m, l) =
      apply_all_lem (pending n) (record node { raft = record n { last_applied = n.commit_index } })
        [] in
    rw e (m, l.0, l.1, l.2)
