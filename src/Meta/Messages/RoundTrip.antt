-- ===== src/Meta/Messages/RoundTrip.antt =====
-- The requests of crates/blitz-meta, from a sender to `handle`.
use alpheidae.Prelude.{
  ℕ, ◌%◌, ◌^◌, ◌<◌, ◌≡◌, refl, subst, Bool, some, List, [], ◌∷◌, ◌++◌, length, All, arith,
}
use alpheidae.Prelude.Bytes.{Str}
use alpheidae.Wire.{
  le_bytes, from_le_bytes, read_exact, w_u64, r_u64, r_u32, w_str, r_str, read_items, write_items,
}
use alpheidae.Wire.Laws.{
  Reads, Reads-done, Reads-bind, Reads-map, Reads-exact, Reads-u64, Reads-u32, Reads-str,
  Reads-items, IsStr,
}
use alpheidae.Meta.Raft
use alpheidae.Meta.Raft.{RequestVote, AppendEntries}
use alpheidae.Meta.State.{Map}
use alpheidae.Meta.Persist.{w_raft_entry, w_pair, r_raft_entry, r_pair, insert_all}
use alpheidae.Meta.Persist.RoundTrip.{IsRaftEntry, Reads-raft_entry}
use alpheidae.Meta.Persist.Catalog.{IsMap, IsPair, Reads-pair, insert_all_lem, Apart-nil}
use alpheidae.Meta.Messages.{
  Request, get, put, repl, promote, status, add_peer, remove_peer, snapshot, request_vote,
  append_entries, unknown, w_request_vote, w_append_entries, w_snapshot, w_repl, encode,
  r_request_vote, r_append_entries, r_put, r_repl, r_snapshot, r_body, r_request,
}

module _ (utf8 : List ℕ → Bool) where
  pub record FitsVote (req : RequestVote) : Type 0 where
    pub term : req.term < 2 ^ 64
    pub candidate_id : IsStr utf8 req.candidate_id
    pub last_log_index : req.last_log_index < 2 ^ 64
    pub last_log_term : req.last_log_term < 2 ^ 64

  pub record FitsAppend (req : AppendEntries) : Type 0 where
    pub term : req.term < 2 ^ 64
    pub leader_id : IsStr utf8 req.leader_id
    pub prev_log_index : req.prev_log_index < 2 ^ 64
    pub prev_log_term : req.prev_log_term < 2 ^ 64
    pub leader_commit : req.leader_commit < 2 ^ 64
    pub few : length req.entries < 2 ^ 32
    pub entries : All (IsRaftEntry utf8) req.entries

  pub record FitsSnapshot (epoch : ℕ) (peers : List Str) (entries : List Raft.LogEntry) (m : Map)
      : Type 0 where
    pub epoch_fits : epoch < 2 ^ 64
    pub few_peers : length peers < 2 ^ 64
    pub peers_fit : All (IsStr utf8) peers
    pub few_entries : length entries < 2 ^ 64
    pub entries_fit : All (IsRaftEntry utf8) entries
    pub few_pairs : length m < 2 ^ 64
    pub pairs_fit : All (IsPair utf8) m
    pub map_fits : IsMap m

  -- The numbers and strings of a request fit their fields, and its map has no key twice. An
  -- unknown request is a byte that is none of the operations'.
  abbrev pub FitsRequest : Request → Type 0
  FitsRequest (get key) = IsStr utf8 key
  FitsRequest (put key val) = IsStr utf8 key × IsStr utf8 val
  FitsRequest (repl epoch index key val) =
      (epoch < 2 ^ 64) × (index < 2 ^ 64) × IsStr utf8 key × IsStr utf8 val
  FitsRequest (promote epoch) = epoch < 2 ^ 64
  FitsRequest status = Unit
  FitsRequest (add_peer addr) = IsStr utf8 addr
  FitsRequest (remove_peer addr) = IsStr utf8 addr
  FitsRequest (snapshot epoch peers entries m) = FitsSnapshot epoch peers entries m
  FitsRequest (request_vote req) = FitsVote req
  FitsRequest (append_entries req) = FitsAppend req
  FitsRequest (unknown op) = (8 < op) × (op < 0xA1)

  Reads-request_vote :
      (req : RequestVote) → FitsVote req → Reads (r_request_vote utf8) (w_request_vote req) req
  unfolding r_request_vote w_request_vote
  Reads-request_vote req h =
      Reads-bind r_u64 _ (w_u64 req.term) _ req.term req (Reads-u64 _ h.term) (
        Reads-bind (r_str utf8) _ (w_str req.candidate_id) _ req.candidate_id req
          (Reads-str utf8 _ h.candidate_id)
          (Reads-bind r_u64 _ (w_u64 req.last_log_index) _ req.last_log_index req
            (Reads-u64 _ h.last_log_index)
            (Reads-map r_u64 _ (w_u64 req.last_log_term) req.last_log_term
              (Reads-u64 _ h.last_log_term))))

  Reads-append_entries :
      (req : AppendEntries)
      → FitsAppend req
      → Reads (r_append_entries utf8) (w_append_entries req) req
  unfolding r_append_entries w_append_entries
  Reads-append_entries req h =
      let e : length req.entries % 2 ^ 32 ≡ length req.entries = omega (arith, h.few) in
      rw e (
        Reads-bind r_u64 _ (w_u64 req.term) _ req.term req (Reads-u64 _ h.term) (
          Reads-bind (r_str utf8) _ (w_str req.leader_id) _ req.leader_id req
            (Reads-str utf8 _ h.leader_id)
            (Reads-bind r_u64 _ (w_u64 req.prev_log_index) _ req.prev_log_index req
              (Reads-u64 _ h.prev_log_index)
              (Reads-bind r_u64 _ (w_u64 req.prev_log_term) _ req.prev_log_term req
                (Reads-u64 _ h.prev_log_term)
                (Reads-bind r_u64 _ (w_u64 req.leader_commit) _ req.leader_commit req
                  (Reads-u64 _ h.leader_commit)
                  (Reads-bind r_u32 _ (le_bytes 4 (length req.entries)) _ (length req.entries) req
                    (Reads-u32 _ h.few)
                    (Reads-map (read_items (r_raft_entry utf8) (length req.entries)) _
                      (write_items w_raft_entry req.entries) req.entries
                      (Reads-items (r_raft_entry utf8) w_raft_entry (IsRaftEntry utf8)
                        (Reads-raft_entry utf8) req.entries h.entries))))))))

  Reads-repl :
      (epoch index : ℕ) (key val : Str)
      → FitsRequest (repl epoch index key val)
      → Reads (r_repl utf8) (w_repl epoch index key val) (repl epoch index key val)
  unfolding r_repl w_repl
  Reads-repl epoch index key val (he, hi, hk, hv) =
      let r = repl epoch index key val in
      Reads-bind r_u64 _ (w_u64 epoch) _ epoch r (Reads-u64 _ he) (
        Reads-bind r_u64 _ (w_u64 index) _ index r (Reads-u64 _ hi) (
          Reads-bind (r_str utf8) _ (w_str key) _ key r (Reads-str utf8 _ hk)
            (Reads-map (r_str utf8) (repl epoch index key) (w_str val) val (Reads-str utf8 _ hv))))

  Reads-snapshot :
      (epoch : ℕ) (peers : List Str) (entries : List Raft.LogEntry) (m : Map)
      → FitsSnapshot epoch peers entries m
      → Reads
          (r_snapshot utf8)
          (w_snapshot epoch peers entries m)
          (snapshot epoch peers entries (insert_all [] m))
  unfolding r_snapshot w_snapshot
  Reads-snapshot epoch peers entries m h =
      let r = snapshot epoch peers entries (insert_all [] m) in
      Reads-bind r_u64 _ (w_u64 epoch) _ epoch r (Reads-u64 _ h.epoch_fits) (
        Reads-bind r_u64 _ (w_u64 (length peers)) _ (length peers) r (Reads-u64 _ h.few_peers) (
          Reads-bind (read_items (r_str utf8) (length peers)) _ (write_items w_str peers) _ peers r
            (Reads-items (r_str utf8) w_str (IsStr utf8) (Reads-str utf8) peers h.peers_fit)
            (Reads-bind r_u64 _ (w_u64 (length entries)) _ (length entries) r
              (Reads-u64 _ h.few_entries)
              (Reads-bind (read_items (r_raft_entry utf8) (length entries)) _
                (write_items w_raft_entry entries) _ entries r
                (Reads-items (r_raft_entry utf8) w_raft_entry (IsRaftEntry utf8)
                  (Reads-raft_entry utf8) entries h.entries_fit)
                (Reads-bind r_u64 _ (w_u64 (length m)) _ (length m) r (Reads-u64 _ h.few_pairs) (
                  Reads-map (read_items (r_pair utf8) (length m)) _ (write_items w_pair m) m (
                    Reads-items (r_pair utf8) w_pair (IsPair utf8) (Reads-pair utf8) m
                      h.pairs_fit)))))))

  -- The first byte, then the rest.
  Reads-op :
      (op : ℕ) (w : List ℕ) (r : Request)
      → from_le_bytes (op ∷ []) ≡ op
      → Reads (r_body utf8 op) w r
      → Reads (r_request utf8) (op ∷ w) r
  unfolding r_request
  Reads-op op w r e h =
      Reads-bind (read_exact 1) _ (op ∷ []) w (op ∷ []) r (Reads-exact 1 (op ∷ []) refl) (rw e h)

  -- The one byte of an operation stands for itself.
  byte : (op : ℕ) → from_le_bytes (op ∷ []) ≡ op
  unfolding from_le_bytes
  byte op = omega arith

  Reads-body : (r : Request) → FitsRequest r → Reads (r_request utf8) (encode r) r
  unfolding r_body encode
  Reads-body (get key) h =
      Reads-op 1 _ (get key) (byte 1)
        (Reads-map (r_str utf8) get (w_str key) key (Reads-str utf8 key h))
  Reads-body (put key val) (hk, hv) = Reads-op 2 _ (put key val) (byte 2) (
      unfold r_put in
      Reads-bind (r_str utf8) _ (w_str key) (w_str val) key (put key val) (Reads-str utf8 key hk)
        (Reads-map (r_str utf8) (put key) (w_str val) val (Reads-str utf8 val hv)))
  Reads-body (repl epoch index key val) h =
      Reads-op 3 _ (repl epoch index key val) (byte 3) (Reads-repl epoch index key val h)
  Reads-body (promote epoch) h =
      Reads-op 4 _ (promote epoch) (byte 4)
        (Reads-map r_u64 promote (w_u64 epoch) epoch (Reads-u64 epoch h))
  Reads-body status h = Reads-op 5 [] status (byte 5) (Reads-done status)
  Reads-body (add_peer addr) h =
      Reads-op 6 _ (add_peer addr) (byte 6)
        (Reads-map (r_str utf8) add_peer (w_str addr) addr (Reads-str utf8 addr h))
  Reads-body (remove_peer addr) h =
      Reads-op 7 _ (remove_peer addr) (byte 7)
        (Reads-map (r_str utf8) remove_peer (w_str addr) addr (Reads-str utf8 addr h))
  Reads-body (snapshot epoch peers entries m) h =
      Reads-op 8 _ (snapshot epoch peers entries m) (byte 8) (
        subst
          (λ (g : Map).
            Reads (r_snapshot utf8) (w_snapshot epoch peers entries m)
              (snapshot epoch peers entries g))
          (insert_all_lem [] m h.map_fits (Apart-nil m)) (Reads-snapshot epoch peers entries m h))
  Reads-body (request_vote req) h = Reads-op 0xA1 _ (request_vote req) (byte 0xA1) (
      Reads-map (r_request_vote utf8) request_vote (w_request_vote req) req
        (Reads-request_vote req h))
  Reads-body (append_entries req) h = Reads-op 0xA2 _ (append_entries req) (byte 0xA2) (
      Reads-map (r_append_entries utf8) append_entries (w_append_entries req) req
        (Reads-append_entries req h))
  Reads-body (unknown op) (lo, hi) =
      Reads-op op [] (unknown op) (byte op) (record { reads = λ rest. ground arith })

  -- A node reads exactly the request that was encoded, and not a byte more, provided that its
  -- numbers and strings fit their fields and its map has no key twice; an unknown operation is a
  -- byte above 8 and below 0xA1.
  pub r_request-encode :
      (r : Request) (rest : List ℕ)
      → FitsRequest r
      → r_request utf8 (encode r ++ rest) ≡ some (r, rest)
  r_request-encode r rest h = (Reads-body r h).reads rest
