-- ===== src/Meta/Persist.antt =====
-- crates/blitz-meta/src/persist.rs: the contents of raft.bin and catalog.bin. Reading and replacing the
-- files themselves is left to the file system.
pub mod RoundTrip
pub mod Catalog
use alpheidae.Prelude.{ℕ, ◌^◌, Bool, true, false, Option, none, some, List, [], ◌∷◌, ◌++◌, length}
use alpheidae.Prelude.Bytes.{Str, ascii, str_eq}
use alpheidae.Wire.{
  le_bytes, Reader, ◌>>=◌, ◌>>◌, done, check, read_exact, w_u64, r_u64, w_str, r_str, read_items,
  write_items,
}
use alpheidae.Meta.Raft
use alpheidae.Meta.Raft.{RaftNode, new}
use alpheidae.Meta.State.{LogEntry, Map, NodeState, insert}

abbrev pub magic : List ℕ
magic = ascii "BLZM"

abbrev pub version : ℕ
version = 1

unfoldable pub w_vote : Option Str → List ℕ
w_vote none = 0 ∷ []
w_vote (some v) = 1 ∷ w_str v

unfoldable pub w_raft_entry : Raft.LogEntry → List ℕ
w_raft_entry e = w_u64 e.term ++ (w_u64 e.index ++ (w_str e.key ++ w_str e.val))

unfoldable pub save_raft : RaftNode → List ℕ
save_raft n =
    magic
    ++ (le_bytes 4 version
        ++ (w_u64 n.current_term
            ++ (w_vote n.voted_for
                ++ (w_u64 n.commit_index
                    ++ (w_u64 n.last_applied
                        ++ (w_u64 (length n.peers)
                            ++ (write_items w_str n.peers
                                ++ (w_u64 (length n.log) ++ write_items w_raft_entry n.log))))))))

unfoldable pub w_pair : Str × Str → List ℕ
w_pair (k, v) = w_str k ++ w_str v

unfoldable pub w_catalog_entry : LogEntry → List ℕ
w_catalog_entry e = w_u64 e.epoch ++ (w_u64 e.index ++ (w_str e.key ++ w_str e.val))

unfoldable pub save_catalog : NodeState → List ℕ
save_catalog st =
    magic
    ++ (le_bytes 4 version
        ++ (w_u64 st.epoch
            ++ (w_u64 (length st.map)
                ++ (write_items w_pair st.map
                    ++ (w_u64 (length st.log) ++ write_items w_catalog_entry st.log)))))

-- The map is built by inserting the pairs one after another.
unfoldable pub insert_all : Map → List (Str × Str) → Map
insert_all m [] = m
insert_all m ((k, v) ∷ ps) = insert_all (insert k v m) ps

-- What a file that was read gives: the bytes behind the fields are not looked at.
abbrev pub loaded : {A : Type 0} → Option (A × List ℕ) → Option (Option A)
loaded none = none
loaded (some (a, _)) = some (some a)

module _ (utf8 : List ℕ → Bool) where
  unfoldable pub r_vote : Reader (Option Str)
  r_vote = do
    has ← read_exact 1
    elim (str_eq has (1 ∷ [])) [ true ↦ do v ← r_str utf8; done (some v) | false ↦ done none ]

  unfoldable pub r_raft_entry : Reader Raft.LogEntry
  r_raft_entry = do
    term ← r_u64
    index ← r_u64
    key ← r_str utf8
    val ← r_str utf8
    done (record { term = term; index = index; key = key; val = val })

  unfoldable pub parse_raft : ℕ → Str → Reader RaftNode
  parse_raft now id = do
    m ← read_exact 4
    check (str_eq m magic)
    ver ← read_exact 4
    term ← r_u64
    vote ← r_vote
    commit ← r_u64
    applied ← r_u64
    n_peers ← r_u64
    peers ← read_items (r_str utf8) n_peers
    n_log ← r_u64
    log ← read_items r_raft_entry n_log
    done (record (new now id peers) {
      current_term = term;
      voted_for = vote;
      commit_index = commit;
      last_applied = applied;
      log = log;
    })

  unfoldable pub r_pair : Reader (Str × Str)
  r_pair = do k ← r_str utf8; v ← r_str utf8; done (k, v)

  unfoldable pub r_catalog_entry : Reader LogEntry
  r_catalog_entry = do
    epoch ← r_u64
    index ← r_u64
    key ← r_str utf8
    val ← r_str utf8
    done (record { epoch = epoch; index = index; key = key; val = val })

  unfoldable pub parse_catalog : Reader (ℕ × Map × List LogEntry)
  unfolding insert_all
  parse_catalog = do
    m ← read_exact 4
    check (str_eq m magic)
    ver ← read_exact 4
    epoch ← r_u64
    n_map ← r_u64
    pairs ← read_items r_pair n_map
    n_log ← r_u64
    log ← read_items r_catalog_entry n_log
    done (epoch, insert_all [] pairs, log)

  -- `none` is an error, and a missing file is `some none`.
  unfoldable pub load_raft : ℕ → Str → Option (List ℕ) → Option (Option RaftNode)
  load_raft now id none = some none
  load_raft now id (some file) = loaded (parse_raft now id file)

  unfoldable pub load_catalog : Option (List ℕ) → Option (Option (ℕ × Map × List LogEntry))
  load_catalog none = some none
  load_catalog (some file) = loaded (parse_catalog file)
