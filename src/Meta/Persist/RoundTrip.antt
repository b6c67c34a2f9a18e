-- ===== src/Meta/Persist/RoundTrip.antt =====
-- The Raft file of crates/blitz-meta/src/persist.rs, written and read.
use alpheidae.Prelude.{
  ℕ, ◌^◌, ◌<◌, ◌≡◌, refl, sym, ap, ◌∙◌, Bool, Option, none, some, List, [], ◌∷◌, length, All,
  append-nil,
}
use alpheidae.Prelude.Bytes.{Str, str_eq}
use alpheidae.Wire.{le_bytes, read_exact, w_u64, r_u64, w_str, r_str, read_items, write_items}
use alpheidae.Wire.Laws.{
  Reads, Reads-done, Reads-bind, Reads-map, Reads-check, Reads-exact, Reads-u64, Reads-str,
  Reads-items, IsStr, length-le_bytes,
}
use alpheidae.Meta.Raft
use alpheidae.Meta.Raft.{RaftNode, new}
use alpheidae.Meta.Persist.{
  magic, version, w_vote, w_raft_entry, save_raft, r_vote, r_raft_entry, parse_raft, load_raft,
  loaded,
}

module _ (utf8 : List ℕ → Bool) where
  -- The numbers fit a u64, and the strings their length fields.
  abbrev pub IsRaftEntry : Raft.LogEntry → Type 0
  IsRaftEntry e = (e.term < 2 ^ 64) × (e.index < 2 ^ 64) × IsStr utf8 e.key × IsStr utf8 e.val

  abbrev pub IsVote : Option Str → Type 0
  IsVote none = Unit
  IsVote (some v) = IsStr utf8 v

  pub record Fits (n : RaftNode) : Type 0 where
    pub term : n.current_term < 2 ^ 64
    pub vote : IsVote n.voted_for
    pub commit : n.commit_index < 2 ^ 64
    pub applied : n.last_applied < 2 ^ 64
    pub few_peers : length n.peers < 2 ^ 64
    pub peers : All (IsStr utf8) n.peers
    pub short_log : length n.log < 2 ^ 64
    pub entries : All IsRaftEntry n.log

  Reads-vote : (o : Option Str) → IsVote o → Reads (r_vote utf8) (w_vote o) o
  unfolding r_vote w_vote
  Reads-vote none h =
      Reads-bind (read_exact 1) _ (0 ∷ []) [] (0 ∷ []) none (Reads-exact 1 (0 ∷ []) refl)
        (Reads-done none)
  Reads-vote (some v) h =
      Reads-bind (read_exact 1) _ (1 ∷ []) (w_str v) (1 ∷ []) (some v) (Reads-exact 1 (1 ∷ []) refl)
        (Reads-map (r_str utf8) some (w_str v) v (Reads-str utf8 v h))

  pub Reads-raft_entry :
      (e : Raft.LogEntry) → IsRaftEntry e → Reads (r_raft_entry utf8) (w_raft_entry e) e
  unfolding r_raft_entry w_raft_entry
  Reads-raft_entry e (ht, hi, hk, hv) =
      Reads-bind r_u64 _ (w_u64 e.term) _ e.term e (Reads-u64 e.term ht) (
        Reads-bind r_u64 _ (w_u64 e.index) _ e.index e (Reads-u64 e.index hi) (
          Reads-bind (r_str utf8) _ (w_str e.key) _ e.key e (Reads-str utf8 e.key hk)
            (Reads-map (r_str utf8) _ (w_str e.val) e.val (Reads-str utf8 e.val hv))))

  -- What a node is after a restart: its term, vote, log, peers and indices, and all else as new.
  abbrev pub restarted : ℕ → Str → RaftNode → RaftNode
  restarted now id n = record (new now id n.peers) {
    current_term = n.current_term;
    voted_for = n.voted_for;
    commit_index = n.commit_index;
    last_applied = n.last_applied;
    log = n.log;
  }

  Reads-raft :
      (now : ℕ) (id : Str) (n : RaftNode)
      → Fits n
      → Reads (parse_raft utf8 now id) (save_raft n) (restarted now id n)
  unfolding parse_raft save_raft
  Reads-raft now id n h =
      let r = restarted now id n in
      Reads-bind (read_exact 4) _ magic _ magic r (Reads-exact 4 magic refl) (
        Reads-check (str_eq magic magic) _ _ r refl (
          Reads-bind (read_exact 4) _ (le_bytes 4 version) _ (le_bytes 4 version) r
            (Reads-exact 4 _ (length-le_bytes 4 version))
            (Reads-bind r_u64 _ (w_u64 n.current_term) _ n.current_term r
              (Reads-u64 n.current_term h.term)
              (Reads-bind (r_vote utf8) _ (w_vote n.voted_for) _ n.voted_for r
                (Reads-vote n.voted_for h.vote)
                (Reads-bind r_u64 _ (w_u64 n.commit_index) _ n.commit_index r
                  (Reads-u64 n.commit_index h.commit)
                  (Reads-bind r_u64 _ (w_u64 n.last_applied) _ n.last_applied r
                    (Reads-u64 n.last_applied h.applied)
                    (Reads-bind r_u64 _ (w_u64 (length n.peers)) _ (length n.peers) r
                      (Reads-u64 _ h.few_peers)
                      (Reads-bind (read_items (r_str utf8) (length n.peers)) _
                        (write_items w_str n.peers) _ n.peers r
                        (Reads-items (r_str utf8) w_str (IsStr utf8) (Reads-str utf8) n.peers
                          h.peers)
                        (Reads-bind r_u64 _ (w_u64 (length n.log)) _ (length n.log) r
                          (Reads-u64 _ h.short_log)
                          (Reads-map (read_items (r_raft_entry utf8) (length n.log)) _
                            (write_items w_raft_entry n.log) n.log
                            (Reads-items (r_raft_entry utf8) w_raft_entry IsRaftEntry
                              Reads-raft_entry n.log h.entries)))))))))))

  -- A node that was saved comes back with the term, the vote, the peers, the log and both indices that
  -- it had, provided that they fit their fields: the rest is as in a new node.
  pub load_raft-save_raft :
      (now : ℕ) (id : Str) (n : RaftNode)
      → Fits n
      → load_raft utf8 now id (some (save_raft n)) ≡ some (some (restarted now id n))
  unfolding load_raft
  load_raft-save_raft now id n h =
      ap (λ f. load_raft utf8 now id (some f)) (sym (append-nil (save_raft n)))
      ∙ ap loaded ((Reads-raft now id n h).reads [])
