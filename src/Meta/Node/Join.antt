-- ===== src/Meta/Node/Join.antt =====
-- A node that joins, in crates/blitz-meta/src/lib.rs: the snapshot that it is sent.
use alpheidae.Prelude.{ℕ, ◌-◌, ◌≤◌, true, false, List, [], ◌∷◌, length, ◌≡◌, refl, ◌∙◌, arith}
use alpheidae.Prelude.Bytes.{Str}
use alpheidae.Meta.Raft
use alpheidae.Meta.Raft.{
  RaftNode, RaftState, follower, candidate, leader, RequestVote, RequestVoteResponse, AppendEntries,
  AppendEntriesResponse, is_add_peer, is_remove_peer, add_prefix, remove_prefix, append_entry,
  majority, start_election, become_leader, index_of_last, observe_term,
}
use alpheidae.Meta.Raft.Indexed.{IsIndexed, index_of_last-length}
use alpheidae.Meta.State.{Map, MetaNode}
use alpheidae.Meta.Node.{is_config, apply_snapshot, take_snapshot, committed, propose}
use alpheidae.Meta.Node.Put.{started, proposed, commits, propose-finish, propose_finish_committed}
use alpheidae.Prelude.{map, ap, sym, length-append}
use alpheidae.Meta.Node.Peers.{on_add_peer}
use alpheidae.Meta.Raft.Members.{is_peer}
use alpheidae.Prelude.{Bool, some, none, ◌++◌, any}
use alpheidae.Prelude.Bytes.{str_eq}
use alpheidae.Meta.Raft.Snapshot.{install_raft}
use alpheidae.Meta.Node.Replay.{IsSound, pending, apply_committed_lem}

-- A snapshot whose log is numbered from 1 and has no configuration entry is taken: it gives the node
-- the sender's log and map, ends its waiting and its leading, and counts every entry of the log as
-- committed and applied: the log is sound, and nothing of it is pending.
pub apply_snapshot_lem :
    (now : ℕ) (node : MetaNode) (epoch : ℕ) (peers : List Str) (entries : List Raft.LogEntry)
    (m : Map)
    → IsIndexed 0 entries
    → any is_config entries ≡ false
    → (after : MetaNode) × (apply_snapshot now node epoch peers entries m ≡ some after)
      × (after.state.map ≡ m)
      × (after.raft.log ≡ entries)
      × (after.state.awaiting_snapshot ≡ false)
      × (after.state.is_leader ≡ false)
      × IsSound after.raft
      × (after.raft.last_applied ≡ length entries)
      × (pending after.raft ≡ [])
unfolding apply_snapshot take_snapshot install_raft
apply_snapshot_lem now node epoch peers entries m ix free =
    let last = index_of_last-length entries ix in
    (
      take_snapshot now node epoch peers entries m,
      rw free,
      refl,
      refl,
      refl,
      refl,
      record { indexed = ix; applied = omega arith; committed = omega (arith, last) },
      last,
      none_left (take_snapshot now node epoch peers entries m).raft (omega arith),
    )
  where
    none_left : (n : RaftNode) → n.commit_index ≤ n.last_applied → pending n ≡ []
    none_left n h = let e : n.commit_index - n.last_applied ≡ 0 = omega arith in rw e

any-middle {ℓ} :
    {A : Type ℓ} (p : A → Bool) (xs : List A) (x : A) (ys : List A)
    → p x ≡ true
    → any p (xs ++ (x ∷ ys)) ≡ true
any-middle p [] x ys h = ground arith
any-middle p (y ∷ xs) x ys h = ground (arith, any-middle p xs x ys h)

on_add_peer-propose :
    (node : MetaNode) (addr : Str) (answer : Str → Bool × Bool) (wait : MetaNode → MetaNode) (i : ℕ)
    → is_peer addr node.raft.peers ≡ false
    → str_eq addr node.addr ≡ false
    → (on_add_peer node addr answer wait).1 ≡ committed i
    → on_add_peer node addr answer wait ≡ propose node (add_prefix ++ addr) [] answer wait
unfolding on_add_peer
on_add_peer-propose node addr answer wait i new_ other h = ground arith

-- Where a leader with a sound log answers the addition of a new peer with the index of an entry, and
-- its other threads, while it called its peers, at most appended numbered entries behind that of the
-- addition and applied none of these and not that one, a snapshot with the log that it then has
-- blocks each node that it is sent to, the new peer as well.
pub added_peer_blocks :
    (node : MetaNode) (addr : Str) (answer : Str → Bool × Bool) (wait : MetaNode → MetaNode)
    (after : List Raft.LogEntry) (i : ℕ)
    → IsSound node.raft
    → is_peer addr node.raft.peers ≡ false
    → str_eq addr node.addr ≡ false
    → (wait (started node (add_prefix ++ addr) [])).raft.log
      ≡ node.raft.log ++ (proposed node.raft (add_prefix ++ addr) [] ∷ after)
    → IsIndexed 0 (wait (started node (add_prefix ++ addr) [])).raft.log
    → (wait (started node (add_prefix ++ addr) [])).raft.last_applied ≤ length node.raft.log
    → (on_add_peer node addr answer wait).1 ≡ committed i
    → (now : ℕ) (receiver : MetaNode) (epoch : ℕ) (peers : List Str) (m : Map)
    → apply_snapshot now receiver epoch peers (on_add_peer node addr answer wait).0.raft.log m
      ≡ none
added_peer_blocks node addr answer wait after i s new_ other log_is ix la h now receiver epoch peers
      m =
    let key = add_prefix ++ addr in
    let n = node.raft in
    let e = proposed n key [] in
    let waited = wait (started node key []) in
    let acks = map answer n.peers in
    let via = on_add_peer-propose node addr answer wait i new_ other h in
    let finished = via ∙ propose-finish node key [] answer wait i (sym (ap (λ r. r.1) via) ∙ h) in
    let (_, _, put_is) =
      propose_finish_committed waited e (majority n) acks i (sym (ap (λ r. r.1) finished) ∙ h) in
    let last = index_of_last-length n.log s.indexed in
    let sound : IsSound (commits waited e.index).raft = record {
      indexed = ix;
      applied = omega (arith, last, la);
      committed = omega (arith, last, ap length log_is, length-append n.log (e ∷ after));
    } in
    let (_, kept, _, _) = apply_committed_lem (commits waited e.index) sound in
    let log_after : (on_add_peer node addr answer wait).0.raft.log ≡ n.log ++ (e ∷ after) =
      ap (λ r. r.0.raft.log) finished ∙ ap (λ x. x.raft.log) put_is ∙ kept ∙ log_is in
    let has : any is_config (n.log ++ (e ∷ after)) ≡ true =
      any-middle is_config n.log e after refl in
    unfold apply_snapshot in rw (log_after, has) refl
