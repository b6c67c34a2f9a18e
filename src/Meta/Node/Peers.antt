-- ===== src/Meta/Node/Peers.antt =====
-- crates/blitz-meta/src/lib.rs: `OP_ADD_PEER`, `OP_REMOVE_PEER` and `activate_new_peers`. Whether a
-- snapshot could be installed on a new peer is an argument.
use alpheidae.Prelude.{
  ℕ, zero, suc, ◌+◌, Bool, true, false, ◌||◌, not, none, some, List, [], ◌∷◌, ◌++◌, if◌then◌else◌,
  length, erase_idx, ◌≡◌, refl, sym, ap, ◌∙◌, arith, Bool-cases, inl, inr,
}
use alpheidae.Prelude.Bytes.{Str, str_eq, str_eq_refl}
use alpheidae.Meta.Raft
use alpheidae.Meta.Raft.{RaftNode, leader, add_prefix, remove_prefix, majority}
use alpheidae.Meta.Raft.Members.{activate_peer, deactivate, position, is_peer}
use alpheidae.Meta.Raft.Members.Aligned.{IsAligned}
use alpheidae.Meta.State.{MetaNode}
use alpheidae.Meta.Node.{Reply, code, committed, propose}

unfoldable pub on_add_peer :
    MetaNode → Str → (Str → Bool × Bool) → (MetaNode → MetaNode) → MetaNode × Reply × List Str
on_add_peer node addr answer wait =
    if not node.state.alive || not node.state.is_leader
    then (node, code 2, [])
    else if is_peer addr node.raft.peers || str_eq addr node.addr
    then (node, committed 0, [])
    else propose node (add_prefix ++ addr) [] answer wait

unfoldable pub on_remove_peer :
    MetaNode → Str → (Str → Bool × Bool) → (MetaNode → MetaNode) → MetaNode × Reply × List Str
on_remove_peer node addr answer wait =
    if not node.state.alive || not node.state.is_leader
    then (node, code 2, [])
    else propose node (remove_prefix ++ addr) [] answer wait

unfoldable pub activate_one : RaftNode → Str → Bool → RaftNode
activate_one n addr installed =
    let m = activate_peer n addr in if installed then m else deactivate m addr

unfoldable pub activate_new_peers : RaftNode → List (Str × Bool) → RaftNode
activate_new_peers n [] = n
activate_new_peers n ((addr, installed) ∷ added) =
    activate_new_peers (activate_one n addr installed) added

position_last :
    (addr : Str) (ps : List Str)
    → is_peer addr ps ≡ false
    → position addr (ps ++ (addr ∷ [])) ≡ some (length ps)
position_last addr [] h = ground (arith, str_eq_refl addr)
position_last addr (p ∷ ps) h = ground (arith, position_last addr ps)

no_position : (addr : Str) (ps : List Str) → is_peer addr ps ≡ false → position addr ps ≡ none
no_position addr [] h = refl
no_position addr (p ∷ ps) h = ground (arith, no_position addr ps)

erase_end {ℓ} :
    {A : Type ℓ} (n : ℕ) (xs : List A) (x : A) → n ≡ length xs → erase_idx (xs ++ (x ∷ [])) n ≡ xs
erase_end zero [] x h = refl
erase_end zero (y ∷ xs) x h = absurd (omega arith)
erase_end (suc n) [] x h = absurd (omega arith)
erase_end (suc n) (y ∷ xs) x h = ap (◌∷◌ y) (erase_end n xs x (omega arith))

-- What a leader makes of a new peer.
abbrev grown : RaftNode → Str → RaftNode
grown n addr = record n {
  peers = n.peers ++ (addr ∷ []);
  next_index = n.next_index ++ ((length n.log + 1) ∷ []);
  match_index = n.match_index ++ (0 ∷ []);
}

activate_peer-grown :
    (n : RaftNode) (addr : Str)
    → Raft.is_leader n.state ≡ true
    → is_peer addr n.peers ≡ false
    → str_eq addr n.id ≡ false
    → activate_peer n addr ≡ grown n addr
unfolding activate_peer
activate_peer-grown n addr lead new_ other = rw (other, new_, lead)

deactivate-grown :
    (n : RaftNode) (addr : Str)
    → is_peer addr n.peers ≡ false
    → length n.next_index ≡ length n.peers
    → length n.match_index ≡ length n.peers
    → deactivate (grown n addr) addr ≡ n
unfolding deactivate
deactivate-grown n addr new_ en em =
    let ps = erase_end (length n.peers) n.peers addr refl in
    let next = erase_end (length n.peers) n.next_index (length n.log + 1) (sym en) in
    let matched = erase_end (length n.peers) n.match_index 0 (sym em) in
    rw (position_last addr n.peers new_, deactivate)
      (λ i. record n { peers = ps i; next_index = next i; match_index = matched i })

-- When the snapshot cannot be installed, a leader whose indices stand beside its peers is left just as
-- it was before it tried to activate a node that is none of its peers.
pub failed_activation_restores :
    (n : RaftNode) (addr : Str)
    → Raft.is_leader n.state ≡ true
    → IsAligned n
    → is_peer addr n.peers ≡ false
    → activate_one n addr false ≡ n
unfolding activate_one
failed_activation_restores n addr lead al new_ = elim (Bool-cases (str_eq addr n.id)) [
  | inl self ↦
      let kept : activate_peer n addr ≡ n = unfold activate_peer in rw self in
      ap (λ m. deactivate m addr) kept
      ∙ unfold deactivate in rw (no_position addr n.peers new_, deactivate)
  | inr other ↦
      ap (λ m. deactivate m addr) (activate_peer-grown n addr lead new_ other)
      ∙ deactivate-grown n addr new_ (al lead).0 (al lead).1
]
