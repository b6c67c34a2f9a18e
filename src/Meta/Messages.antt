-- ===== src/Meta/Messages.antt =====
-- crates/blitz-meta/src/lib.rs and raft.rs: the messages between clients and nodes. `encode` is what
-- the senders write (`MetaClient`, `replicate_to`, `try_send_snapshot`, `send_request_vote` and
-- `send_append_entries`), and `r_request` is how `handle` reads it.
pub mod RoundTrip
use alpheidae.Prelude.{
  ℕ, ◌+◌, ◌%◌, ◌^◌, Bool, true, false, Option, none, some, List, [], ◌∷◌, ◌++◌, ◌==◌, if◌then◌else◌,
  length,
}
use alpheidae.Prelude.Bytes.{Str}
use alpheidae.Wire.{
  le_bytes, from_le_bytes, Reader, ◌>>=◌, done, read_exact, w_u64, r_u64, r_u32, w_str, r_str,
  read_items, write_items,
}
use alpheidae.Meta.Raft
use alpheidae.Meta.Raft.{RequestVote, AppendEntries}
use alpheidae.Meta.State.{Map}
use alpheidae.Meta.Persist.{w_raft_entry, w_pair, r_raft_entry, r_pair, insert_all}

pub data Request : Type 0 where
  get : Str → Request
  put : Str → Str → Request
  repl : ℕ → ℕ → Str → Str → Request
  promote : ℕ → Request
  status : Request
  add_peer remove_peer : Str → Request
  snapshot : ℕ → List Str → List Raft.LogEntry → Map → Request
  request_vote : RequestVote → Request
  append_entries : AppendEntries → Request
  unknown : ℕ → Request

unfoldable pub w_request_vote : RequestVote → List ℕ
w_request_vote req =
    w_u64 req.term
    ++ (w_str req.candidate_id ++ (w_u64 req.last_log_index ++ w_u64 req.last_log_term))

unfoldable pub w_append_entries : AppendEntries → List ℕ
w_append_entries req =
    w_u64 req.term
    ++ (w_str req.leader_id
        ++ (w_u64 req.prev_log_index
            ++ (w_u64 req.prev_log_term
                ++ (w_u64 req.leader_commit
                    ++ (le_bytes 4 (length req.entries % 2 ^ 32)
                        ++ write_items w_raft_entry req.entries)))))

unfoldable pub w_snapshot : ℕ → List Str → List Raft.LogEntry → Map → List ℕ
w_snapshot epoch peers entries m =
    w_u64 epoch
    ++ (w_u64 (length peers)
        ++ (write_items w_str peers
            ++ (w_u64 (length entries)
                ++ (write_items w_raft_entry entries
                    ++ (w_u64 (length m) ++ write_items w_pair m)))))

unfoldable pub w_repl : ℕ → ℕ → Str → Str → List ℕ
w_repl epoch index key val = w_u64 epoch ++ (w_u64 index ++ (w_str key ++ w_str val))

unfoldable pub encode : Request → List ℕ
encode (get key) = 1 ∷ w_str key
encode (put key val) = 2 ∷ (w_str key ++ w_str val)
encode (repl epoch index key val) = 3 ∷ w_repl epoch index key val
encode (promote epoch) = 4 ∷ w_u64 epoch
encode status = 5 ∷ []
encode (add_peer addr) = 6 ∷ w_str addr
encode (remove_peer addr) = 7 ∷ w_str addr
encode (snapshot epoch peers entries m) = 8 ∷ w_snapshot epoch peers entries m
encode (request_vote req) = 0xA1 ∷ w_request_vote req
encode (append_entries req) = 0xA2 ∷ w_append_entries req
encode (unknown op) = op ∷ []

module _ (utf8 : List ℕ → Bool) where
  unfoldable pub r_request_vote : Reader RequestVote
  r_request_vote = do
    term ← r_u64
    candidate_id ← r_str utf8
    last_log_index ← r_u64
    last_log_term ← r_u64
    done (record {
      term = term;
      candidate_id = candidate_id;
      last_log_index = last_log_index;
      last_log_term = last_log_term;
    })

  unfoldable pub r_append_entries : Reader AppendEntries
  r_append_entries = do
    term ← r_u64
    leader_id ← r_str utf8
    prev_log_index ← r_u64
    prev_log_term ← r_u64
    leader_commit ← r_u64
    count ← r_u32
    entries ← read_items (r_raft_entry utf8) count
    done (record {
      term = term;
      leader_id = leader_id;
      prev_log_index = prev_log_index;
      prev_log_term = prev_log_term;
      entries = entries;
      leader_commit = leader_commit;
    })

  unfoldable pub r_put : Reader Request
  r_put = do key ← r_str utf8; val ← r_str utf8; done (put key val)

  unfoldable pub r_repl : Reader Request
  r_repl = do
    epoch ← r_u64
    index ← r_u64
    key ← r_str utf8
    val ← r_str utf8
    done (repl epoch index key val)

  unfoldable pub r_snapshot : Reader Request
  r_snapshot = do
    epoch ← r_u64
    n_peers ← r_u64
    snap_peers ← read_items (r_str utf8) n_peers
    n_entries ← r_u64
    entries ← read_items (r_raft_entry utf8) n_entries
    n_map ← r_u64
    pairs ← read_items (r_pair utf8) n_map
    done (snapshot epoch snap_peers entries (insert_all [] pairs))

  -- What follows the first byte; an unknown one is not answered.
  unfoldable pub r_body : ℕ → Reader Request
  r_body op =
      if op == 0xA1
      then (do req ← r_request_vote; done (request_vote req))
      else if op == 0xA2
      then (do req ← r_append_entries; done (append_entries req))
      else if op == 1
      then (do key ← r_str utf8; done (get key))
      else if op == 2
      then r_put
      else if op == 3
      then r_repl
      else if op == 4
      then (do epoch ← r_u64; done (promote epoch))
      else if op == 5
      then done status
      else if op == 6
      then (do addr ← r_str utf8; done (add_peer addr))
      else if op == 7
      then (do addr ← r_str utf8; done (remove_peer addr))
      else if op == 8
      then r_snapshot
      else done (unknown op)

  unfoldable pub r_request : Reader Request
  unfolding r_body
  r_request = do op ← read_exact 1; r_body (from_le_bytes op)
