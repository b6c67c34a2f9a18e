-- ===== src/Meta/Raft/Apply/Order.antt =====
-- `take_applicable` of raft.rs on a log that is numbered from 1.
use alpheidae.Prelude.{
  ℕ, zero, suc, ◌+◌, ◌-◌, ◌≤◌, ◌<◌, some, List, [], ◌∷◌, ◌++◌, ltb, ◌==◌, length, get_elem?, take,
  drop, find, ◌≡◌, refl, sym, ap, ◌∙◌, inl, inr, arith, Bool-cases,
}
use alpheidae.Meta.Raft.{LogEntry, RaftNode}
use alpheidae.Prelude.{append_assoc, append-nil}
use alpheidae.Meta.Raft.Apply.{apply_loop, take_applicable}
use alpheidae.Meta.Raft.Indexed.{IsIndexed}

-- The search for an index finds the entry at its position.
find_index :
    (i j k : ℕ) (log : List LogEntry)
    → IsIndexed i log
    → k ≡ i + 1 + j
    → find (λ e. e.index == k) log ≡ get_elem? log j
find_index i j k [] h p = refl
find_index i zero k (x ∷ log) (h, hs) p = ground arith
find_index i (suc j) k (x ∷ log) (h, hs) p =
    ground (arith, find_index (i + 1) j k log hs (omega arith))

drop_at :
    (i : ℕ) (log : List LogEntry)
    → i < length log
    → (e : LogEntry) × (get_elem? log i ≡ some e) × (drop i log ≡ e ∷ drop (i + 1) log)
drop_at i [] h = absurd (omega arith)
drop_at zero (x ∷ log) h = (x, refl, refl)
drop_at (suc i) (x ∷ log) h =
    let (e, g, d) = drop_at i log (omega arith) in
    (e, g, let p : suc i + 1 ≡ suc (i + 1) = omega arith in rw p d)

-- One round takes the entry behind the last one applied.
apply_round :
    (fuel commit applied : ℕ) (log out : List LogEntry)
    → IsIndexed 0 log
    → applied < commit
    → commit ≤ length log
    → (e : LogEntry) × (drop applied log ≡ e ∷ drop (applied + 1) log)
      × (apply_loop (suc fuel) commit log applied out
          ≡ apply_loop fuel commit log (applied + 1) (out ++ (e ∷ [])))
unfolding apply_loop
apply_round fuel commit applied log out h lt le =
    let (e, g, d) = drop_at applied log (omega arith) in
    (e, d, ground (arith, g, find_index 0 applied (applied + 1) log h (omega arith)))

take_round :
    (n : ℕ) (e : LogEntry) (xs : List LogEntry) → 0 < n → take n (e ∷ xs) ≡ e ∷ take (n - 1) xs
take_round zero e xs h = absurd (omega arith)
take_round (suc n) e xs h = let p : suc n - 1 ≡ n = omega arith in rw p

apply_loop_lem :
    (fuel commit applied : ℕ) (log out : List LogEntry)
    → IsIndexed 0 log
    → applied ≤ commit
    → commit ≤ length log
    → commit - applied ≤ fuel
    → apply_loop fuel commit log applied out
      ≡ (commit, out ++ take (commit - applied) (drop applied log))
apply_loop_lem zero commit applied log out h lo le hf =
    let e : commit - applied ≡ 0 = omega arith in
    let p : applied ≡ commit = omega arith in
    rw (e, append-nil) (unfold apply_loop in ap (λ a. (a, out)) p)
apply_loop_lem (suc fuel) commit applied log out h lo le hf =
    elim (Bool-cases (ltb applied commit)) [
      | inl lt ↦
          let (e, d, step) = apply_round fuel commit applied log out h (ground arith) le in
          let rest =
            apply_loop_lem fuel commit (applied + 1) log (out ++ (e ∷ [])) h (ground arith) le
              (omega arith) in
          let q : commit - (applied + 1) ≡ commit - applied - 1 = omega arith in
          step
          ∙ rest
          ∙ ap (λ (r : List LogEntry). (commit, r))
              (append_assoc out (e ∷ []) (take (commit - (applied + 1)) (drop (applied + 1) log))
                ∙ ap (◌++◌ out) (
                    rw (q, d)
                      (sym
                        (take_round (commit - applied) e (drop (applied + 1) log) (ground arith)))))
      | inr ge ↦
          let e : commit - applied ≡ 0 = ground arith in
          let p : applied ≡ commit = ground arith in
          rw (e, append-nil) (unfold apply_loop in ground arith)
    ]

-- On a log that is numbered from 1, where what is applied is committed and what is committed is
-- there, `take_applicable` returns exactly the entries behind `last_applied` up to `commit_index`,
-- in the order of the log, and moves `last_applied` to `commit_index`.
pub take_applicable_lem :
    (n : RaftNode)
    → IsIndexed 0 n.log
    → n.last_applied ≤ n.commit_index
    → n.commit_index ≤ length n.log
    → take_applicable n ≡ (
      record n { last_applied = n.commit_index },
      take (n.commit_index - n.last_applied) (drop n.last_applied n.log),
    )
unfolding take_applicable
take_applicable_lem n h lo le = rw (
    apply_loop_lem (n.commit_index - n.last_applied) n.commit_index n.last_applied n.log [] h lo le
      (omega arith))
