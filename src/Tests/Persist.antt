-- ===== src/Tests/Persist.antt =====
-- Runs of the formats of crates/blitz-meta, with a test that takes bytes below 128 for UTF-8.
use alpheidae.Prelude.{
  ℕ, Bool, true, false, ◌&&◌, ltb, none, some, List, [], ◌∷◌, ◌++◌, ◌≡◌, refl, arith,
}
use alpheidae.Prelude.Bytes.{Str, ascii}
use alpheidae.Meta.Raft.{RaftNode, new}
use alpheidae.Meta.State.{NodeState, get}
use alpheidae.Meta.Persist.{save_raft, load_raft, save_catalog, load_catalog}
use alpheidae.Meta.Persist.RoundTrip.{Fits, restarted, load_raft-save_raft}
use alpheidae.Meta.Node.Start.{start, is_empty, start-saved}
use alpheidae.Meta.State.{MetaNode}
use alpheidae.Meta.Raft.{follower}
use alpheidae.Prelude.{if◌then◌else◌}
use alpheidae.Meta.Messages.{Request, append_entries, encode, r_request}
use alpheidae.Meta.Messages.RoundTrip.{FitsRequest, r_request-encode}
use alpheidae.Meta.Persist.Catalog.{FitsCatalog, load_catalog-save_catalog}

abbrev is_ascii : List ℕ → Bool
is_ascii [] = true
is_ascii (x ∷ xs) = ltb x 128 && is_ascii xs

abbrev a : Str
a = ascii "a"

abbrev node : RaftNode
node = record (new 0 a (ascii "b" ∷ [])) {
  current_term = 3;
  voted_for = some a;
  log = record { term = 3; index = 1; key = ascii "k"; val = ascii "v" } ∷ [];
  commit_index = 1;
}

node-Fits : Fits is_ascii node
unfolding new
node-Fits = record {
  term = omega arith;
  vote = (omega arith, refl);
  commit = omega arith;
  applied = omega arith;
  few_peers = omega arith;
  peers = ((omega arith, refl), tt);
  short_log = omega arith;
  entries = ((omega arith, omega arith, (omega arith, refl), (omega arith, refl)), tt);
}

load_raft-save_raft_example :
    load_raft is_ascii 50 a (some (save_raft node)) ≡ some (some (restarted is_ascii 50 a node))
load_raft-save_raft_example = load_raft-save_raft is_ascii 50 a node node-Fits

abbrev catalog : NodeState
catalog = record {
  epoch = 3;
  is_leader = true;
  map = (ascii "k", ascii "v") ∷ (ascii "l", ascii "w") ∷ [];
  log = record { epoch = 3; index = 1; key = ascii "k"; val = ascii "v" } ∷ [];
  alive = true;
  awaiting_snapshot = false;
}

catalog-FitsCatalog : FitsCatalog is_ascii catalog
catalog-FitsCatalog = record {
  epoch = omega arith;
  few_keys = omega arith;
  pairs = (
    ((omega arith, refl), (omega arith, refl)),
    (((omega arith, refl), (omega arith, refl)), tt),
  );
  short_log = omega arith;
  entries = ((omega arith, omega arith, (omega arith, refl), (omega arith, refl)), tt);
}

once : get (ascii "k") ((ascii "l", ascii "w") ∷ []) ≡ none
unfolding get
once = refl

last : get (ascii "l") [] ≡ none
unfolding get
last = refl

load_catalog-save_catalog_test :
    load_catalog is_ascii (some (save_catalog catalog)) ≡ some (some (3, catalog.map, catalog.log))
load_catalog-save_catalog_test =
    load_catalog-save_catalog is_ascii catalog catalog-FitsCatalog (once, (last, tt))

abbrev request : Request
request = append_entries (record {
  term = 3;
  leader_id = a;
  prev_log_index = 0;
  prev_log_term = 0;
  entries = node.log;
  leader_commit = 1;
})

request-FitsRequest : FitsRequest is_ascii request
unfolding new
request-FitsRequest = record {
  term = omega arith;
  leader_id = (omega arith, refl);
  prev_log_index = omega arith;
  prev_log_term = omega arith;
  leader_commit = omega arith;
  few = omega arith;
  entries = ((omega arith, omega arith, (omega arith, refl), (omega arith, refl)), tt);
}

r_request-encode_example : r_request is_ascii (encode request ++ (7 ∷ [])) ≡ some (request, 7 ∷ [])
r_request-encode_example = r_request-encode is_ascii request (7 ∷ []) request-FitsRequest

abbrev saved : MetaNode
saved = record { addr = a; state = catalog; raft = node }

start-saved_example :
    let after =
      start is_ascii 50 a [] false (some (some (save_raft node), some (save_catalog catalog))) in
    (after.raft.current_term ≡ node.current_term)
    × (after.raft.voted_for ≡ node.voted_for)
    × (after.raft.log ≡ node.log)
    × (after.raft.commit_index ≡ node.commit_index)
    × (after.raft.last_applied ≡ node.last_applied)
    × (after.raft.peers ≡ (if is_empty node.peers then [] else node.peers))
    × (after.raft.state ≡ follower)
    × (after.state.epoch ≡ catalog.epoch)
    × (after.state.map ≡ catalog.map)
    × (after.state.log ≡ catalog.log)
    × (after.state.is_leader ≡ false)
start-saved_example =
    start-saved is_ascii 50 a [] saved node-Fits catalog-FitsCatalog (once, (last, tt))
