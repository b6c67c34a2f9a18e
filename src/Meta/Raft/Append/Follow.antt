-- ===== src/Meta/Raft/Append/Follow.antt =====
-- A follower that answers yes to the leader's append request.
use alpheidae.Prelude.{
  ℕ, zero, suc, ◌+◌, ◌≤◌, ◌<◌, min, true, false, some, List, [], ◌∷◌, ltb, if◌then◌else◌, length,
  get_elem?, take, drop, ◌≡◌, refl, ◌∙◌, ◌⊎◌, inl, inr, arith, Bool-cases,
}
use alpheidae.Prelude.Bytes.{Str}
use alpheidae.Meta.Raft.{
  follower, LogEntry, AppendEntries, AppendEntriesResponse, RaftNode, index_of_last, observe_term,
}
use alpheidae.Prelude.{length-drop}
use alpheidae.Meta.Raft.Append.{
  answer_append, place_entries, prev_log_ok, term_before, handle_append_entries, append_request,
}
use alpheidae.Meta.Raft.Indexed.{IsIndexed, IsIndexed-drop}
use alpheidae.Meta.Raft.Append.Matching.{Matching}

pub observe_term-log : (n : RaftNode) (t : ℕ) → (observe_term n t).log ≡ n.log
unfolding observe_term
observe_term-log n t = ground arith

pub observe_term-commit : (n : RaftNode) (t : ℕ) → (observe_term n t).commit_index ≡ n.commit_index
unfolding observe_term
observe_term-commit n t = ground arith

-- A request that is answered with yes.
pub record Accepted (m : RaftNode) (req : AppendEntries) (r : RaftNode × AppendEntriesResponse)
    : Type 0 where
  pub reached : m.current_term ≤ req.term
  pub in_term : r.0.current_term ≡ m.current_term
  pub follows : r.0.state ≡ follower
  pub consistent : prev_log_ok m.log req.prev_log_index req.prev_log_term ≡ true
  pub placed : r.0.log ≡ place_entries m.log req.prev_log_index req.entries
  pub committed : r.0.commit_index ≡ (
      if ltb m.commit_index req.leader_commit
      then min req.leader_commit (index_of_last r.0.log)
      else m.commit_index)

-- A request that is answered with no: it is of an old term, or the log does not fit.
pub record Refused (m : RaftNode) (req : AppendEntries) (r : RaftNode × AppendEntriesResponse)
    : Type 0 where
  pub refused : r.1.success ≡ false
  pub in_term : r.0.current_term ≡ m.current_term
  pub same_log : r.0.log ≡ m.log
  pub same_commit : r.0.commit_index ≡ m.commit_index
  pub why :
      (req.term < m.current_term) ⊎ (prev_log_ok m.log req.prev_log_index req.prev_log_term ≡ false)

answer_append_cases :
    (now : ℕ) (m : RaftNode) (req : AppendEntries)
    → Refused m req (answer_append now m req) ⊎ Accepted m req (answer_append now m req)
unfolding answer_append
answer_append_cases now m req = elim (Bool-cases (ltb req.term m.current_term)) [
  | inl a ↦ inl (
      rw a (record {
        refused = refl;
        in_term = refl;
        same_log = refl;
        same_commit = refl;
        why = inl (ground arith);
      }))
  | inr a ↦ elim (Bool-cases (prev_log_ok m.log req.prev_log_index req.prev_log_term)) [
    | inl b ↦ inr (
        rw (a, b)
          (record {
            reached = ground arith;
            in_term = refl;
            follows = refl;
            consistent = b;
            placed = refl;
            committed = refl;
          }))
    | inr b ↦ inl (
        rw (a, b)
          (record {
            refused = refl;
            in_term = refl;
            same_log = refl;
            same_commit = refl;
            why = inr b;
          }))
  ]
]

-- The same with the node as it was before the request's term was seen.
pub prefix_kept :
    (now : ℕ) (n : RaftNode) (req : AppendEntries)
    → (handle_append_entries now n req).1.success ≡ true
    → Accepted (observe_term n req.term) req (handle_append_entries now n req)
unfolding handle_append_entries
prefix_kept now n req h = elim (answer_append_cases now (observe_term n req.term) req) [
  | inl r ↦ absurd (cc (r.refused))
  | inr a ↦ a
]

term_before-some :
    (l : List LogEntry) (i : ℕ)
    → i < length l
    → (e : LogEntry) × (get_elem? l i ≡ some e) × (term_before l (suc i) ≡ e.term)
unfolding term_before
term_before-some [] i h = absurd (omega arith)
term_before-some (x ∷ l) zero h = (x, refl, refl)
term_before-some (x ∷ l) (suc i) h = term_before-some l i (omega arith)

prev_log_ok-some :
    (log : List LogEntry) (i t : ℕ)
    → prev_log_ok log (suc i) t ≡ true
    → (e : LogEntry) × (get_elem? log i ≡ some e) × (e.term ≡ t)
unfolding prev_log_ok
prev_log_ok-some [] i t h = absurd (cc)
prev_log_ok-some (x ∷ log) zero t h = (x, refl, ground arith)
prev_log_ok-some (x ∷ log) (suc i) t h = prev_log_ok-some log i t h

-- The consistency check compares the two logs at one position, and that settles what is before it.
pub agree_before :
    (f l : List LogEntry) (prev : ℕ)
    → Matching f l
    → prev ≤ length l
    → prev_log_ok f prev (term_before l prev) ≡ true
    → take prev f ≡ take prev l
agree_before f l zero m le h = refl
agree_before f l (suc i) m le h =
    let (b, hb, tb) = term_before-some l i le in
    let (a, ha, ta) = prev_log_ok-some f i (term_before l (suc i)) h in m i a b ha hb (ta ∙ tb)

-- The request's `prev_log_index` is the position of its first entry.
pub request_prev :
    (id : Str) (term commit prev k : ℕ) (l : List LogEntry)
    → IsIndexed 0 l
    → prev < length l
    → (append_request id term commit l (take (suc k) (drop prev l))).prev_log_index ≡ prev
unfolding append_request
request_prev id term commit prev k l h lt =
    from (drop prev l) (IsIndexed-drop prev 0 l (omega arith) h) (omega (arith, length-drop prev l))
  where
    from :
        (xs : List LogEntry)
        → IsIndexed (0 + prev) xs
        → 0 < length xs
        → (append_request id term commit l (take (suc k) xs)).prev_log_index ≡ prev
    from [] hx pos = absurd (omega arith)
    from (x ∷ xs) (hx, _) pos = omega (arith, hx)

pub request_prev_term :
    (id : Str) (term commit : ℕ) (l es : List LogEntry)
    → (append_request id term commit l es).prev_log_term
      ≡ term_before l (append_request id term commit l es).prev_log_index
unfolding append_request
request_prev_term id term commit l es = refl

pub request_entries :
    (id : Str) (term commit : ℕ) (l es : List LogEntry)
    → (append_request id term commit l es).entries ≡ es
unfolding append_request
request_entries id term commit l es = refl
