-- ===== src/Meta/Raft/Vote/Safety.antt =====
-- The votes of one node of raft.rs in a term.
use alpheidae.Prelude.{
  ℕ, ◌≤◌, ◌<◌, true, false, Option, none, some, List, [], ◌∷◌, ltb, ◌≡◌, refl, sym, ap, ◌∙◌, ◌⊎◌,
  inl, inr, arith, Bool-cases,
}
use alpheidae.Prelude.Bytes.{Str, eq_of_str_eq}
use alpheidae.Meta.Raft.{
  RequestVote, RequestVoteResponse, RaftNode, start_election, become_leader, append_entry,
  observe_term,
}
use alpheidae.Meta.Raft.Vote.{decide_vote, handle_request_vote, is_behind, voted_other}
use alpheidae.Meta.Raft.Append.{handle_append_entries}
use alpheidae.Meta.Raft.Apply.{take_applicable}
use alpheidae.Meta.Raft.Members.{deactivate, apply_config_entry, activate_peer}
use alpheidae.Meta.Raft.Snapshot.{install_raft}
use alpheidae.Meta.Raft.Events.{
  Event, elect, win, request_vote, append_entries, propose, commit, deliver, config, activate,
  roll_back, snapshot, step, run, SameVote, config-SameVote, activate-SameVote, deactivate-SameVote,
  deliver-SameVote, append-SameVote,
}

-- The node has passed term `t`, or it is in term `t` and its vote went to `c`.
abbrev pub Voted : RaftNode → ℕ → Str → Type 0
Voted n t c = (t < n.current_term) ⊎ ((n.current_term ≡ t) × (n.voted_for ≡ some c))

vote_kept : (m n : RaftNode) (t : ℕ) (c : Str) → SameVote m n → Voted n t c → Voted m t c
vote_kept m n t c (et, ev) (inl h) = inl (omega arith)
vote_kept m n t c (et, ev) (inr (h, v)) = inr (et ∙ h, ev ∙ v)

observe_term-Voted : (n : RaftNode) (r t : ℕ) (c : Str) → Voted n t c → Voted (observe_term n r) t c
unfolding observe_term
observe_term-Voted n r t c (inl h) = inl (ground arith)
observe_term-Voted n r t c (inr (h, v)) = elim (Bool-cases (ltb n.current_term r)) [
  | inl e ↦ inl (ground arith)
  | inr e ↦ inr (ground arith, ground arith)
]

-- What a grant says: the node is in the request's term, had no other vote, and now has this one.
pub record Granted (m : RaftNode) (req : RequestVote) (r : RaftNode × RequestVoteResponse)
    : Type 0 where
  pub in_term : r.0.current_term ≡ m.current_term
  pub answered : r.1.term ≡ m.current_term
  pub reached : m.current_term ≤ req.term
  pub was_free : voted_other m.voted_for req.candidate_id ≡ false
  pub up_to_date : is_behind req m ≡ false
  pub voted : r.0.voted_for ≡ some req.candidate_id

-- Every answer is a denial that leaves the node as it was, or such a grant.
pub decide_vote_cases :
    (now : ℕ) (m : RaftNode) (req : RequestVote)
    → (((decide_vote now m req).0 ≡ m) × ((decide_vote now m req).1.vote_granted ≡ false))
      ⊎ Granted m req (decide_vote now m req)
unfolding decide_vote
decide_vote_cases now m req = elim (Bool-cases (ltb req.term m.current_term)) [
  | inl a ↦ inl (rw a, rw a)
  | inr a ↦ elim (Bool-cases (voted_other m.voted_for req.candidate_id)) [
    | inl b ↦ inl (rw (a, b), rw (a, b))
    | inr b ↦ elim (Bool-cases (is_behind req m)) [
      | inl c ↦ inl (rw (a, b, c), rw (a, b, c))
      | inr c ↦ inr (
          rw (a, b, c)
            (record {
              in_term = refl;
              answered = refl;
              reached = ground arith;
              was_free = b;
              up_to_date = c;
              voted = refl;
            }))
    ]
  ]
]

-- A vote that is not another's is this one.
free_vote : (o : Option Str) (c v : Str) → voted_other o c ≡ false → o ≡ some v → c ≡ v
free_vote none c v h e = cc
free_vote (some w) c v h e = ground (arith, eq_of_str_eq w c)

decide_vote-Voted :
    (now : ℕ) (m : RaftNode) (req : RequestVote) (t : ℕ) (c : Str)
    → Voted m t c
    → Voted (decide_vote now m req).0 t c
decide_vote-Voted now m req t c v = elim (decide_vote_cases now m req) [
  | inl (same, _) ↦ rw same v
  | inr g ↦ elim v [
    | inl h ↦ inl (omega (arith, g.in_term))
    | inr (h, w) ↦ inr (g.in_term ∙ h, g.voted ∙ ap some (free_vote _ _ c g.was_free w))
  ]
]

-- No event takes a vote back.
pub step-Voted : (n : RaftNode) (e : Event) (t : ℕ) (c : Str) → Voted n t c → Voted (step n e) t c
unfolding step handle_request_vote
step-Voted n (elect now) t c v = unfold start_election in inl (ground arith)
step-Voted n (win now) t c v = unfold become_leader in v
step-Voted n (request_vote now req) t c v =
    decide_vote-Voted now (observe_term n req.term) req t c (observe_term-Voted n req.term t c v)
step-Voted n (append_entries now req) t c v =
    vote_kept (handle_append_entries now n req).0 (observe_term n req.term) t c
      (append-SameVote now n req) (observe_term-Voted n req.term t c v)
step-Voted n (propose key val) t c v = unfold append_entry in v
step-Voted n (commit i) t c v = v
step-Voted n deliver t c v = vote_kept (take_applicable n).0 n t c (deliver-SameVote n) v
step-Voted n (config e) t c v = vote_kept (apply_config_entry n e).0 n t c (config-SameVote n e) v
step-Voted n (activate addr) t c v =
    vote_kept (activate_peer n addr) n t c (activate-SameVote n addr) v
step-Voted n (roll_back addr) t c v =
    vote_kept (deactivate n addr) n t c (deactivate-SameVote n addr) v
step-Voted n (snapshot now addr epoch peers entries) t c v = unfold install_raft in ground arith

-- In the step the node gives its vote in term `t` to `c`: to itself at the start of an election, or
-- by an answer that the candidate counts.
abbrev pub Grants : RaftNode → Event → ℕ → Str → Type 0
Grants n (elect now) t c = ((start_election now n).current_term ≡ t) × (n.id ≡ c)
Grants n (request_vote now req) t c =
    ((handle_request_vote now n req).1.vote_granted ≡ true)
    × ((handle_request_vote now n req).1.term ≡ t)
    × (req.candidate_id ≡ c)
Grants n _ t c = ⊥

Grants-Granted :
    (now : ℕ) (n : RaftNode) (req : RequestVote) {t : ℕ} {c : Str}
    → Grants n (request_vote now req) t c
    → Granted (observe_term n req.term) req (handle_request_vote now n req)
unfolding handle_request_vote
Grants-Granted now n req g = elim (decide_vote_cases now (observe_term n req.term) req) [
  | inl (_, denied) ↦ cc
  | inr granted ↦ granted
]

pub Grants-Voted :
    (n : RaftNode) (e : Event) (t : ℕ) (c : Str) → Grants n e t c → Voted (step n e) t c
unfolding step
Grants-Voted n (elect now) t c g = unfold start_election in inr (g.0, ap some g.1)
Grants-Voted n (request_vote now req) t c g =
    let d = Grants-Granted now n req {t = t} {c = c} g in
    inr (d.in_term ∙ sym d.answered ∙ g.1, d.voted ∙ ap some g.2)
Grants-Voted n (win now) t c g = absurd g
Grants-Voted n _ t c g = absurd g

-- A node whose vote in `t` is given gives no other in `t`.
pub Voted-Grants :
    (n : RaftNode) (e : Event) (t : ℕ) (c d : Str) → Voted n t c → Grants n e t d → d ≡ c
Voted-Grants n (elect now) t c d v g = unfold start_election in ground arith
Voted-Grants n (request_vote now req) t c d v g =
    let r = Grants-Granted now n req {t = t} {c = d} g in
    elim (observe_term-Voted n req.term t c v) [
      | inl h ↦ absurd (omega (arith, r.answered, g.1))
      | inr (h, w) ↦ sym g.2 ∙ free_vote _ _ c r.was_free w
    ]
Voted-Grants n (win now) t c d v g = absurd g
Voted-Grants n _ t c d v g = absurd g

run-Voted : (n : RaftNode) (es : List Event) (t : ℕ) (c : Str) → Voted n t c → Voted (run n es) t c
unfolding run
run-Voted n [] t c v = v
run-Voted n (e ∷ es) t c v = run-Voted (step n e) es t c (step-Voted n e t c v)

-- In any run a node gives at most one vote in a term: two grants of one term, however far apart and
-- whatever happens between them, go to the same candidate.
pub one_vote_per_term :
    (n : RaftNode) (e f : Event) (es : List Event) (t : ℕ) (c d : Str)
    → Grants n e t c
    → Grants (run (step n e) es) f t d
    → d ≡ c
one_vote_per_term n e f es t c d g h =
    Voted-Grants _ f t c d (run-Voted (step n e) es t c (Grants-Voted n e t c g)) h
