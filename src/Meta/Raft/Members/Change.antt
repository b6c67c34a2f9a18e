-- ===== src/Meta/Raft/Members/Change.antt =====
-- Single-server changes of raft.rs: how a configuration entry changes the cluster and its quorums.
use alpheidae.Prelude.{
  ℕ, zero, suc, ◌+◌, ◌≤◌, ◌<◌, some, List, [], ◌∷◌, length, erase_idx, ◌≡◌, ap, inl, inr, arith,
  Bool-cases, Option-cases,
}
use alpheidae.Prelude.Bytes.{Str, str_eq}
use alpheidae.Meta.Raft.{LogEntry, is_add_peer, is_remove_peer, RaftNode, cluster_size, majority}
use alpheidae.Meta.Raft.Members.{apply_config_entry, apply_add, apply_remove, remove_at, position}
use alpheidae.Prelude.{length-append}

pub position-lt : (addr : Str) (ps : List Str) (i : ℕ) → position addr ps ≡ some i → i < length ps
position-lt addr [] i h = cc
position-lt addr (p ∷ ps) i h = elim (Bool-cases (str_eq p addr)) [
  | inl e ↦ ground arith
  | inr e ↦ elim (Option-cases (position addr ps)) [
    | inl q ↦ ground arith
    | inr (j, q) ↦ ground (arith, position-lt addr ps j q)
  ]
]

pub length-erase_idx {ℓ} :
    {A : Type ℓ} (xs : List A) (i : ℕ) → i < length xs → length (erase_idx xs i) + 1 ≡ length xs
length-erase_idx [] i h = absurd (omega arith)
length-erase_idx (x ∷ xs) zero h = omega arith
length-erase_idx (x ∷ xs) (suc i) h = omega (arith, length-erase_idx xs i (omega arith))

-- The peers before and after differ by one at most.
abbrev OneApart : List Str → List Str → Type 0
OneApart ps qs = (length ps ≤ length qs + 1) × (length qs ≤ length ps + 1)

remove_at-peers : (n : RaftNode) (i : ℕ) → (remove_at n i).peers ≡ erase_idx n.peers i
unfolding remove_at
remove_at-peers n i = ground arith

apply_remove-OneApart : (n : RaftNode) (addr : Str) → OneApart n.peers (apply_remove n addr).peers
unfolding apply_remove
apply_remove-OneApart n addr = elim (Option-cases (position addr n.peers)) [
  | inl e ↦ rw e (ground arith)
  | inr (i, e) ↦ rw e (
      ground (
        arith,
        ap length (remove_at-peers n i),
        length-erase_idx n.peers i (position-lt addr n.peers i e),
      ))
]

apply_add-OneApart : (n : RaftNode) (addr : Str) → OneApart n.peers (apply_add n addr).0.peers
unfolding apply_add
apply_add-OneApart n addr = ground (arith, length-append n.peers (addr ∷ []))

config-OneApart : (n : RaftNode) (e : LogEntry) → OneApart n.peers (apply_config_entry n e).0.peers
unfolding apply_config_entry
config-OneApart n e = elim (Option-cases (is_add_peer e)) [
  | inl p ↦ elim (Option-cases (is_remove_peer e)) [
    | inl q ↦ ground arith
    | inr (a, q) ↦ ground (arith, apply_remove-OneApart n a)
  ]
  | inr (a, p) ↦ ground (arith, apply_add-OneApart n a)
]

-- A majority before a configuration entry and a majority after it are together more than the nodes
-- of the cluster before, and more than those of the cluster after.
pub config_quorums_overlap :
    (n : RaftNode) (e : LogEntry)
    → (cluster_size n < majority n + majority (apply_config_entry n e).0)
      × (cluster_size (apply_config_entry n e).0 < majority n + majority (apply_config_entry n e).0)
unfolding majority
config_quorums_overlap n e = omega (arith, config-OneApart n e)
