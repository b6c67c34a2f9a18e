-- ===== src/Meta/Raft/Append/Agreement.antt =====
-- The leader's append request and heartbeat, and a follower that answers yes, in raft.rs.
use alpheidae.Prelude.{
  ℕ, zero, suc, ◌+◌, ◌≤◌, ◌<◌, min, true, some, List, [], ◌∷◌, leb, length, get_elem?, take, drop,
  ◌≡◌, refl, sym, ap, ◌∙◌, inl, inr, arith, Bool-cases,
}
use alpheidae.Prelude.Bytes.{Str}
use alpheidae.Meta.Raft.{LogEntry, RaftNode, index_of_last}
use alpheidae.Meta.Raft.Append.{
  place_entries, prev_log_ok, term_before, handle_append_entries, append_request, heartbeat_request,
}
use alpheidae.Meta.Raft.Indexed.{IsIndexed}
use alpheidae.Meta.Raft.Append.Overwrite.{prev_log_ok-le}
use alpheidae.Meta.Raft.Append.Matching.{Matching, Follows, place_entries-Follows}
use alpheidae.Meta.Raft.Append.Follow.{
  prefix_kept, observe_term-log, agree_before, request_prev, request_prev_term, request_entries,
}

-- The next `k + 1` entries of the leader's log `l`, from position `prev` on.
abbrev pub chunk : List LogEntry → ℕ → ℕ → List LogEntry
chunk l prev k = take (suc k) (drop prev l)

-- A follower with log matching answers yes to the leader's request for the `k + 1` entries from
-- `prev` on, where the leader's log is numbered from 1 and goes beyond `prev`: then its log agrees
-- with the leader's up to the last of them, and it is its old log if that agreed already, and the
-- leader's log cut there if not.
pub follower_adopts :
    (now : ℕ) (n : RaftNode) (id : Str) (term commit prev k : ℕ) (l : List LogEntry)
    → Matching n.log l
    → IsIndexed 0 l
    → prev < length l
    → (handle_append_entries now n (append_request id term commit l (chunk l prev k))).1.success
      ≡ true
    → Follows
        (prev + length (chunk l prev k))
        n.log
        l
        (handle_append_entries now n (append_request id term commit l (chunk l prev k))).0.log
follower_adopts now n id term commit prev k l m ix lt yes_ =
    let req = append_request id term commit l (chunk l prev k) in
    let a = prefix_kept now n req yes_ in
    let old = observe_term-log n req.term in
    let at = request_prev id term commit prev k l ix lt in
    let here = request_prev_term id term commit l (chunk l prev k) in
    let es = request_entries id term commit l (chunk l prev k) in
    let ok : prev_log_ok n.log prev (term_before l prev) ≡ true =
      cc (a.consistent, old, at, here) in
    let log : (handle_append_entries now n req).0.log ≡ place_entries n.log prev (chunk l prev k) =
      cc (a.placed, old, at, es) in
    rw log (
      place_entries-Follows n.log l prev (suc k) m (prev_log_ok-le n.log prev _ ok)
        (agree_before n.log l prev m (omega arith) ok))

module _ {ℓ} {A : Type ℓ} where
  take-take : (a b : ℕ) (xs : List A) → a ≤ b → take a (take b xs) ≡ take a xs
  take-take zero b xs h = refl
  take-take (suc a) zero xs h = absurd (omega arith)
  take-take (suc a) (suc b) [] h = refl
  take-take (suc a) (suc b) (x ∷ xs) h = ap (◌∷◌ x) (take-take a b xs (omega arith))

  get_elem?-take : (n i : ℕ) (xs : List A) (a : A) → get_elem? (take n xs) i ≡ some a → i < n
  get_elem?-take zero i xs a h = cc
  get_elem?-take (suc n) i [] a h = cc
  get_elem?-take (suc n) zero (x ∷ xs) a h = omega arith
  get_elem?-take (suc n) (suc i) (x ∷ xs) a h = omega (arith, get_elem?-take n i xs a h)

-- Log matching is kept.
pub Follows-Matching :
    (n : ℕ) (f l r : List LogEntry) → Matching f l → Follows n f l r → Matching r l
Follows-Matching n f l r m (_, inl e) = rw e m
Follows-Matching n f l r m (_, inr (e, _)) = rw e cut
  where
    cut : Matching (take n l) l
    cut i a b ha hb t = take-take (suc i) n l (omega (arith, get_elem?-take n i l a ha))

-- What was committed stays: a prefix that the leader has too is in the new log.
pub Follows-committed :
    (n c : ℕ) (f l r : List LogEntry) → Follows n f l r → take c f ≡ take c l → take c r ≡ take c f
Follows-committed n c f l r (_, inl e) h = ap (take c) e
Follows-committed n c f l r (_, inr (e, differ)) h = elim (Bool-cases (leb c n)) [
  | inl le ↦ ap (take c) e ∙ take-take c n l (ground arith) ∙ sym h
  | inr gt ↦ absurd (
      differ
        (sym (take-take n c f (ground arith)) ∙ ap (take n) h ∙ take-take n c l (ground arith)))
]

-- A follower has log matching with a leader's log, which is numbered from 1, and answers yes to the
-- leader's request for the `k + 1` entries from `prev` on, which is inside that log. Then whatever
-- prefix `c` the two logs share (what is committed, say) stands unchanged in the follower's, and it
-- has log matching with the leader's log again.
pub append_keeps_committed :
    (now : ℕ) (n : RaftNode) (id : Str) (term commit prev k c : ℕ) (l : List LogEntry)
    → Matching n.log l
    → IsIndexed 0 l
    → prev < length l
    → take c n.log ≡ take c l
    → (handle_append_entries now n (append_request id term commit l (chunk l prev k))).1.success
      ≡ true
    → (take c (handle_append_entries now n (append_request id term commit l (chunk l prev k))).0.log
        ≡ take c n.log)
      × Matching
          (handle_append_entries now n (append_request id term commit l (chunk l prev k))).0.log
          l
append_keeps_committed now n id term commit prev k c l m ix lt h yes_ =
    let r =
      (handle_append_entries now n (append_request id term commit l (chunk l prev k))).0.log in
    let f = follower_adopts now n id term commit prev k l m ix lt yes_ in
    let upto = prev + length (chunk l prev k) in
    (Follows-committed upto c n.log l r f h, Follows-Matching upto n.log l r m f)

-- A heartbeat of a term that is not old is answered with yes whatever the follower's log holds. The
-- log stays, and if the leader has committed more, the commit index becomes the leader's or the
-- index of the follower's own last entry, the lesser of the two.
pub heartbeat_commits_unchecked :
    (now : ℕ) (n : RaftNode) (id : Str) (term commit : ℕ)
    → n.current_term ≤ term
    → n.commit_index < commit
    → ((handle_append_entries now n (heartbeat_request id term commit)).1.success ≡ true)
      × ((handle_append_entries now n (heartbeat_request id term commit)).0.log ≡ n.log)
      × ((handle_append_entries now n (heartbeat_request id term commit)).0.commit_index
          ≡ min commit (index_of_last n.log))
unfolding handle_append_entries heartbeat_request prev_log_ok place_entries
heartbeat_commits_unchecked now n id term commit le lt = ground arith
