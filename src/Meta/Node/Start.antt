-- ===== src/Meta/Node/Start.antt =====
-- crates/blitz-meta/src/lib.rs: `start_inner`, up to the threads that it starts. `dir` is what the two
-- files of the data directory hold, if there is a directory, and a file that is missing is `none`.
use alpheidae.Prelude.{
  ℕ, Bool, true, false, ◌&&◌, not, Option, none, some, List, [], ◌∷◌, if◌then◌else◌, ◌≡◌, refl, ap,
  arith,
}
use alpheidae.Prelude.Bytes.{Str}
use alpheidae.Meta.Raft.{RaftNode, follower, new}
use alpheidae.Meta.State.{LogEntry, Map, MetaNode}
use alpheidae.Meta.Persist.{save_raft, load_raft, save_catalog, load_catalog}
use alpheidae.Meta.Persist.RoundTrip.{Fits, restarted, load_raft-save_raft}
use alpheidae.Meta.Persist.Catalog.{IsMap, FitsCatalog, load_catalog-save_catalog}

-- `.ok().flatten().unwrap_or(d)`: an error and a missing file both give the default.
abbrev pub found_or {ℓ} : {A : Type ℓ} → Option (Option A) → A → A
found_or none d = d
found_or (some none) d = d
found_or (some (some a)) d = a

abbrev pub is_empty {ℓ} : {A : Type ℓ} → List A → Bool
is_empty [] = true
is_empty (x ∷ xs) = false

-- The peers that the caller names count only when none were loaded, and not for a joiner.
unfoldable pub initial_peers : RaftNode → List Str → Bool → RaftNode
initial_peers raft peers awaiting =
    if is_empty raft.peers && not (is_empty peers) && not awaiting
    then record raft { peers = peers }
    else raft

abbrev pub Catalog : Type 0
Catalog = ℕ × Map × List LogEntry

unfoldable pub started : Str → RaftNode → Catalog → Bool → MetaNode
started addr raft (epoch, m, log) awaiting = record {
  addr = addr;
  state = record {
    epoch = epoch;
    is_leader = false;
    map = m;
    log = log;
    alive = true;
    awaiting_snapshot = awaiting;
  };
  raft = raft;
}

pick :
    (ps qs : List Str)
    → (if is_empty ps && not (is_empty qs) && true then qs else ps)
      ≡ (if is_empty ps then qs else ps)
pick [] [] = refl
pick [] (q ∷ qs) = refl
pick (p ∷ ps) qs = refl

-- All but the peers stays.
initial_peers_lem :
    (raft : RaftNode) (peers : List Str)
    → let after = initial_peers raft peers false in
      (after.current_term ≡ raft.current_term)
      × (after.voted_for ≡ raft.voted_for)
      × (after.log ≡ raft.log)
      × (after.commit_index ≡ raft.commit_index)
      × (after.last_applied ≡ raft.last_applied)
      × (after.peers ≡ (if is_empty raft.peers then peers else raft.peers))
      × (after.state ≡ raft.state)
unfolding initial_peers
initial_peers_lem raft peers = ground (arith, pick raft.peers peers)

module _ (utf8 : List ℕ → Bool) where
  unfoldable pub start :
      ℕ → Str → List Str → Bool → Option (Option (List ℕ) × Option (List ℕ)) → MetaNode
  unfolding initial_peers started
  start now addr peers awaiting none =
      started addr (initial_peers (new now addr peers) peers awaiting) (1, [], []) awaiting
  start now addr peers awaiting (some (raft_file, catalog_file)) =
      let raft = found_or (load_raft utf8 now addr raft_file) (new now addr peers) in
      started addr (initial_peers raft peers awaiting)
        (found_or (load_catalog utf8 catalog_file) (1, [], [])) awaiting

  -- A node that starts over the files of an earlier one is a follower that leads nothing, and it has
  -- the earlier one's term, vote, log, indices and catalog, and its peers unless it had none, provided
  -- that these fit their fields and no key stands twice in the map.
  pub start-saved :
      (now : ℕ) (addr : Str) (peers : List Str) (node : MetaNode)
      → Fits utf8 node.raft
      → FitsCatalog utf8 node.state
      → IsMap node.state.map
      → let after =
          start now addr peers false
            (some (some (save_raft node.raft), some (save_catalog node.state))) in
        (after.raft.current_term ≡ node.raft.current_term)
        × (after.raft.voted_for ≡ node.raft.voted_for)
        × (after.raft.log ≡ node.raft.log)
        × (after.raft.commit_index ≡ node.raft.commit_index)
        × (after.raft.last_applied ≡ node.raft.last_applied)
        × (after.raft.peers ≡ (if is_empty node.raft.peers then peers else node.raft.peers))
        × (after.raft.state ≡ follower)
        × (after.state.epoch ≡ node.state.epoch)
        × (after.state.map ≡ node.state.map)
        × (after.state.log ≡ node.state.log)
        × (after.state.is_leader ≡ false)
  unfolding start new
  start-saved now addr peers node h hc m =
      let raft =
        ap (λ x. found_or x (new now addr peers)) (load_raft-save_raft utf8 now addr node.raft h) in
      let catalog =
        ap (λ (x : Option (Option Catalog)). found_or x (1, [], []))
          (load_catalog-save_catalog utf8 node.state hc m) in
      let (term, vote, log, commit, applied, ps, role) =
        initial_peers_lem (restarted utf8 now addr node.raft) peers in
      rw (raft, catalog) (term, vote, log, commit, applied, ps, role, refl, refl, refl, refl)
