-- ===== src/Meta/Raft/Vote/Quorum.antt =====
-- Majorities of raft.rs, and the votes of a cluster in a term.
use alpheidae.Prelude.{
  ℕ, zero, suc, ◌+◌, ◌≤◌, ◌<◌, Bool, true, ◌&&◌, List, [], ◌∷◌, if◌then◌else◌, ◌≡◌, sym, ◌∙◌, ◌⊎◌,
  inl, inr, arith, Bool-cases,
}
use alpheidae.Prelude.Bytes.{Str}
use alpheidae.Meta.Raft.{RaftNode, cluster_size, majority}
use alpheidae.Meta.Raft.Events.{Event, elect, win, request_vote, step}
use alpheidae.Meta.Raft.Vote.Safety.{Voted, Grants, Grants-Voted, Voted-Grants, step-Voted}

-- How many of the nodes 0 .. n - 1 satisfy `p`: the votes that `tick` counts.
abbrev pub count : (ℕ → Bool) → ℕ → ℕ
count p zero = 0
count p (suc n) = (if p n then 1 else 0) + count p n

-- Two sets with more than `n` members between them meet below `n`.
quorums_meet :
    (p q : ℕ → Bool) (n : ℕ)
    → n < count p n + count q n
    → (i : ℕ) × (i < n) × (p i ≡ true) × (q i ≡ true)
quorums_meet p q zero h = absurd (omega arith)
quorums_meet p q (suc n) h = elim (Bool-cases (p n && q n)) [
  | inl both ↦ (n, omega arith, ground arith, ground arith)
  | inr some_not ↦
      let (i, lt, hp, hq) = quorums_meet p q n (ground arith) in (i, omega arith, hp, hq)
]

-- Somewhere in the history the node gives its vote in `t` to `c`.
abbrev pub GrantsIn : RaftNode → List Event → ℕ → Str → Type 0
GrantsIn n [] t c = ⊥
GrantsIn n (e ∷ es) t c = Grants n e t c ⊎ GrantsIn (step n e) es t c

Voted-GrantsIn :
    (n : RaftNode) (es : List Event) (t : ℕ) (c d : Str) → Voted n t c → GrantsIn n es t d → d ≡ c
Voted-GrantsIn n [] t c d v g = absurd g
Voted-GrantsIn n (e ∷ es) t c d v (inl g) = Voted-Grants n e t c d v g
Voted-GrantsIn n (e ∷ es) t c d v (inr g) =
    Voted-GrantsIn (step n e) es t c d (step-Voted n e t c v) g

same_grant :
    (n : RaftNode) (e : Event) (t : ℕ) (c d : Str) → Grants n e t c → Grants n e t d → d ≡ c
same_grant n (elect now) t c d g h = sym h.1 ∙ g.1
same_grant n (request_vote now req) t c d g h = sym h.2 ∙ g.2
same_grant n (win now) t c d g h = absurd g
same_grant n _ t c d g h = absurd g

-- The votes of one history in one term agree.
pub history_agrees :
    (n : RaftNode) (es : List Event) (t : ℕ) (c d : Str)
    → GrantsIn n es t c
    → GrantsIn n es t d
    → d ≡ c
history_agrees n [] t c d g h = absurd g
history_agrees n (e ∷ es) t c d (inl g) (inl h) = same_grant n e t c d g h
history_agrees n (e ∷ es) t c d (inl g) (inr h) =
    Voted-GrantsIn (step n e) es t c d (Grants-Voted n e t c g) h
history_agrees n (e ∷ es) t c d (inr g) (inl h) =
    sym (Voted-GrantsIn (step n e) es t d c (Grants-Voted n e t d h) g)
history_agrees n (e ∷ es) t c d (inr g) (inr h) = history_agrees (step n e) es t c d g h

-- Election safety. The nodes 0 .. size - 1 of a cluster start anywhere and live through any
-- histories. If candidate `c`, with `a` its node, has a majority `p` of votes in term `t`, and
-- candidate `d`, with node `b`, has a majority `q` in the same term, then they are one candidate,
-- provided that both nodes have the cluster's size.
pub one_leader_per_term :
    (size : ℕ) (node : ℕ → RaftNode) (history : ℕ → List Event) (a b : RaftNode) (p q : ℕ → Bool)
    (t : ℕ) (c d : Str)
    → cluster_size a ≡ size
    → cluster_size b ≡ size
    → majority a ≤ count p size
    → majority b ≤ count q size
    → ((i : ℕ) → p i ≡ true → GrantsIn (node i) (history i) t c)
    → ((i : ℕ) → q i ≡ true → GrantsIn (node i) (history i) t d)
    → d ≡ c
unfolding majority
one_leader_per_term size node history a b p q t c d ea eb ma mb hp hq =
    let (i, lt, vp, vq) = quorums_meet p q size (omega arith) in
    history_agrees (node i) (history i) t c d (hp i vp) (hq i vq)
