-- ===== src/Tests/Raft.antt =====
-- Runs of crates/blitz-meta/src/raft.rs: three nodes a, b and c.
use alpheidae.Prelude.{
  ℕ, zero, suc, ◌+◌, ◌<◌, min, Bool, true, List, [], ◌∷◌, ◌++◌, ltb, length, take, drop, ◌≡◌, refl,
  arith, inl,
}
use alpheidae.Prelude.Bytes.{Str, ascii}
use alpheidae.Meta.Raft.{
  RaftNode, LogEntry, RequestVote, AppendEntries, new, cluster_size, majority, start_election,
  add_peer, remove_peer, index_of_last, observe_term, last_log_index, last_log_term,
  reset_election_timeout,
}
use alpheidae.Meta.Raft.Members.{apply_config_entry}
use alpheidae.Meta.Raft.Members.Change.{config_quorums_overlap}
use alpheidae.Meta.Raft.Members.Aligned.{IsAligned, run-IsAligned}
use alpheidae.Meta.Raft.Vote.{handle_request_vote, decide_vote}
use alpheidae.Meta.Raft.Vote.Safety.{Grants, one_vote_per_term}
use alpheidae.Meta.Raft.Vote.Quorum.{GrantsIn, one_leader_per_term}
use alpheidae.Meta.Raft.Append.{
  place_entries, place_entry, handle_append_entries, append_request, heartbeat_request,
  answer_append, prev_log_ok,
}
use alpheidae.Meta.Raft.Append.Overwrite.{overwrite, place_entries-overwrite}
use alpheidae.Meta.Raft.Append.Matching.{Matching, Follows}
use alpheidae.Meta.Raft.Append.Agreement.{
  chunk, follower_adopts, append_keeps_committed, heartbeat_commits_unchecked,
}
use alpheidae.Meta.Raft.Apply.{take_applicable}
use alpheidae.Meta.Raft.Apply.Order.{take_applicable_lem}
use alpheidae.Meta.Raft.Events.{
  Event, elect, win, request_vote, propose, config, activate, roll_back, step, run,
}

abbrev a : Str
a = ascii "a"

abbrev b : Str
b = ascii "b"

abbrev c : Str
c = ascii "c"

-- The nodes 0, 1 and 2 as they start.
abbrev node : ℕ → RaftNode
node zero = new 0 a (b ∷ c ∷ [])
node (suc zero) = new 0 b (a ∷ c ∷ [])
node (suc (suc _)) = new 0 c (a ∷ b ∷ [])

abbrev ask : Str → RequestVote
ask id = record { term = 1; candidate_id = id; last_log_index = 0; last_log_term = 0 }

abbrev entry : ℕ → ℕ → LogEntry
entry term index = record { term = term; index = index; key = ascii "k"; val = ascii "v" }

-- The leader's log, and a follower's with an entry of an older term in place of the second.
abbrev log : List LogEntry
log = entry 1 1 ∷ entry 2 2 ∷ entry 2 3 ∷ []

abbrev old_log : List LogEntry
old_log = entry 1 1 ∷ entry 1 2 ∷ []

abbrev behind : RaftNode
behind = record (node 1) { current_term = 2; log = old_log; commit_index = 1 }

-- A vote is asked for, given, refused to another, and given again to the first.
first : Grants (node 1) (request_vote 5 (ask a)) 1 a
unfolding handle_request_vote decide_vote observe_term new last_log_index last_log_term
    reset_election_timeout
first = (refl, refl, refl)

again :
    Grants
      (run
        (step (node 1) (request_vote 5 (ask a)))
        (request_vote 6 (ask c) ∷ request_vote 7 (ask c) ∷ []))
      (request_vote 9 (ask a))
      1
      a
unfolding handle_request_vote decide_vote observe_term new last_log_index last_log_term
    reset_election_timeout run step
again = (refl, refl, refl)

one_vote_per_term_example : a ≡ a
one_vote_per_term_example =
    one_vote_per_term (node 1) (request_vote 5 (ask a)) (request_vote 9 (ask a))
      (request_vote 6 (ask c) ∷ request_vote 7 (ask c) ∷ []) 1 a a first again

-- Node 0 stands for election and has the vote of node 1.
abbrev history : ℕ → List Event
history zero = elect 1000 ∷ []
history (suc zero) = request_vote 1001 (ask a) ∷ []
history (suc (suc _)) = []

abbrev voters : ℕ → Bool
voters i = ltb i 2

votes : (i : ℕ) → voters i ≡ true → GrantsIn (node i) (history i) 1 a
unfolding handle_request_vote decide_vote observe_term new last_log_index last_log_term
    reset_election_timeout start_election
votes zero h = inl (refl, refl)
votes (suc zero) h = inl (refl, refl, refl)
votes (suc (suc i)) h = absurd (ground arith)

one_leader_per_term_example : a ≡ a
unfolding cluster_size majority new
one_leader_per_term_example =
    one_leader_per_term 3 node history (node 0) (node 0) voters voters 1 a a refl refl (omega arith)
      (omega arith) votes votes

config_quorums_overlap_example :
    (cluster_size (node 0)
      < majority (node 0) + majority (apply_config_entry (node 0) (add_peer 1 1 (ascii "d"))).0)
    × (cluster_size (apply_config_entry (node 0) (add_peer 1 1 (ascii "d"))).0
        < majority (node 0) + majority (apply_config_entry (node 0) (add_peer 1 1 (ascii "d"))).0)
config_quorums_overlap_example = config_quorums_overlap (node 0) (add_peer 1 1 (ascii "d"))

abbrev events : List Event
events =
    elect 1000
    ∷ win 1001
    ∷ propose a b
    ∷ activate (ascii "d")
    ∷ roll_back (ascii "d")
    ∷ config (remove_peer 1 1 b)
    ∷ []

run-IsAligned_example : IsAligned (run (new 0 a (b ∷ c ∷ [])) events)
unfolding new
run-IsAligned_example = run-IsAligned (new 0 a (b ∷ c ∷ [])) events refl

place_entries-overwrite_test :
    place_entries old_log 1 (entry 2 2 ∷ [])
    ≡ take 1 old_log ++ overwrite (drop 1 old_log) (entry 2 2 ∷ [])
place_entries-overwrite_test = place_entries-overwrite old_log 1 (entry 2 2 ∷ []) (omega arith)

-- The stale entry is gone.
place_entries_test : place_entries old_log 1 (entry 2 2 ∷ []) ≡ entry 1 1 ∷ entry 2 2 ∷ []
unfolding place_entries place_entry
place_entries_test = refl

matching : Matching behind.log log
unfolding new
matching zero x y hx hy e = refl
matching (suc zero) x y hx hy e = ground arith
matching (suc (suc i)) x y hx hy e = ground arith

abbrev request : AppendEntries
request = append_request a 2 0 log (chunk log 1 1)

success : (handle_append_entries 9 behind request).1.success ≡ true
unfolding handle_append_entries answer_append observe_term prev_log_ok append_request new
success = refl

follower_adopts_example :
    Follows
      (1 + length (chunk log 1 1))
      behind.log
      log
      (handle_append_entries 9 behind request).0.log
follower_adopts_example =
    follower_adopts 9 behind a 2 0 1 1 log matching (refl, (refl, (refl, tt))) (omega arith) success

agree : take 1 behind.log ≡ take 1 log
agree = refl

append_keeps_committed_example :
    (take 1 (handle_append_entries 9 behind request).0.log ≡ take 1 behind.log)
    × Matching (handle_append_entries 9 behind request).0.log log
append_keeps_committed_example =
    append_keeps_committed 9 behind a 2 0 1 1 1 log matching (refl, (refl, (refl, tt)))
      (omega arith) agree success

-- The follower's second entry is not the leader's, and a heartbeat commits it.
heartbeat_commits_unchecked_example :
    ((handle_append_entries 9 behind (heartbeat_request a 2 2)).1.success ≡ true)
    × ((handle_append_entries 9 behind (heartbeat_request a 2 2)).0.log ≡ behind.log)
    × ((handle_append_entries 9 behind (heartbeat_request a 2 2)).0.commit_index
        ≡ min 2 (index_of_last behind.log))
heartbeat_commits_unchecked_example =
    heartbeat_commits_unchecked 9 behind a 2 2 (omega arith) (omega arith)

abbrev ready : RaftNode
ready = record behind { log = log; commit_index = 3; last_applied = 1 }

take_applicable_lem_example :
    take_applicable ready ≡ (record ready { last_applied = 3 }, take 2 (drop 1 log))
take_applicable_lem_example =
    take_applicable_lem ready (refl, (refl, (refl, tt))) (omega arith) (omega arith)
