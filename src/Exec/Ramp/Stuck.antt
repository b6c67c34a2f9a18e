-- ===== src/Exec/Ramp/Stuck.antt =====
-- A ramped query whose workers die with the last morsels.
use alpheidae.Prelude.{
  ℕ, suc, zero, ◌+◌, refl, ap, length, length-append, ◌⊎◌, inl, inr, ◌<◌, ◌≡◌, subst, List, [], ◌∷◌,
  ◌++◌, arith,
}
use alpheidae.Cluster.{ClusteredTable, pruned_morsels}
use alpheidae.Sql.{Clauses}
use alpheidae.Exec.{Partial, merge, nothing}
use alpheidae.Exec.Ramp.{
  Shared, morsel, Task, local, serving, absent, waiting, start, finish, Reach, here, next, ended,
  Ramp, TaskStep, local_pop, local_finish, join, serve, answer, die_serving, panic_serving,
  die_waiting, leave, Step, task, complete,
}

-- Every thread has ended, and no worker is still to come.
abbrev pub AllEnded : List Task → Type 0
AllEnded [] = Unit
AllEnded (a ∷ tasks) = (a ≡ ended) × AllEnded tasks

one_of : (before after : List Task) (a : Task) → AllEnded (before ++ (a ∷ after)) → a ≡ ended
one_of [] after a (e, h) = e
one_of (b ∷ before) after a (e, h) = one_of before after a h

ended_stays :
    (t : ClusteredTable) (q : Clauses) (s s' : Shared) (a a' : Task)
    → a ≡ ended
    → TaskStep t q s a s' a'
    → ⊥
ended_stays t q s s' a a' e (local_pop p n rest m is pop es ea) = ground (arith, e, is)
ended_stays t q s s' a a' e (local_finish p n is empty es ea) = ground (arith, e, is)
ended_stays t q s s' a a' e (join is open' es ea) = ground (arith, e, is)
ended_stays t q s s' a a' e (serve rest m is pop es ea) = ground (arith, e, is)
ended_stays t q s s' a a' e (answer m is es ea) = ground (arith, e, is)
ended_stays t q s s' a a' e (die_serving m is es ea) = ground (arith, e, is)
ended_stays t q s s' a a' e (panic_serving m is es ea) = ground (arith, e, is)
ended_stays t q s s' a a' e (die_waiting is es ea) = ground (arith, e, is)
ended_stays t q s s' a a' e (leave is empty es ea) = ground (arith, e, is)

no_step_left :
    (t : ClusteredTable) (q : Clauses) (r : Ramp)
    → AllEnded r.tasks
    → r.shared.morsels_done < r.shared.morsels_total
    → ¬ ((r' : Ramp) × Step t q r r')
no_step_left t q r h short (r', task before after a a' e st e') =
    ended_stays t q r.shared r'.shared a a' (one_of before after a (subst AllEnded e h)) st
no_step_left t q r h short (r', complete joined le es et) = omega (arith, short, le)

list_end :
    {A : Type 0} (xs : List A) → (xs ≡ []) ⊎ ((rest : List A) × (x : A) × (xs ≡ rest ++ (x ∷ [])))
list_end [] = inl refl
list_end (x ∷ xs) = elim (list_end xs) [
  | inl e ↦ inr ([], x, ap (◌∷◌ x) e)
  | inr (rest, y, e) ↦ inr (x ∷ rest, y, ap (◌∷◌ x) e)
]

module _ (t : ClusteredTable) (q : Clauses) (from : Ramp) (m : ℕ) where
  -- A local thread beside a worker that has the morsel `m`.
  abbrev beside : Shared → List ℕ → Partial → ℕ → Ramp
  beside s queue p n = record {
    shared = record s { queue = queue };
    tasks = local p n ∷ serving m ∷ [];
  }

  -- The local thread empties the queue.
  drain :
      (k : ℕ) (s : Shared) (queue : List ℕ) (p : Partial) (n : ℕ)
      → length queue ≡ k
      → Reach t q from (beside s queue p n)
      → (p' : Partial) × Reach t q from (beside s [] p' (n + k))
  drain zero s queue p n len r = elim (list_end queue) [
    | inl e ↦
        let same : n ≡ n + 0 = omega arith in
        (
          p,
          subst (λ (c : ℕ). Reach t q from (beside s [] p c)) same
              (subst (λ xs. Reach t q from (beside s xs p n)) e r),
        )
    | inr (rest, x, e) ↦ absurd (omega (arith, ap length e, length-append rest (x ∷ [])))
  ]
  drain (suc k) s queue p n len r = elim (list_end queue) [
    | inl e ↦ absurd (omega (arith, ap length e))
    | inr (rest, x, e) ↦
        let more = merge p (morsel t q x) in
        let popped : Reach t q from (beside s rest more (n + 1)) = next r (
          task [] (serving m ∷ []) (local p n) (local more (n + 1)) refl
            (local_pop p n rest x refl e refl refl) refl) in
        let shorter : length rest ≡ k =
          omega (arith, len, ap length e, length-append rest (x ∷ [])) in
        let (p', there) = drain k s rest more (n + 1) shorter popped in
        let same : n + 1 + k ≡ n + suc k = omega arith in
        (p', subst (λ (c : ℕ). Reach t q from (beside s [] p' c)) same there)
  ]

-- A query that leaves morsels to do can hang. With one local thread and one worker, the worker may take
-- the last morsel and die with it after the local thread has done all the others and found the queue
-- empty: then every thread has ended, a morsel is not done, and no step is possible, so that the
-- coordinator waits for ever.
pub ramp_can_hang :
    (t : ClusteredTable) (q : Clauses)
    → 0 < length (pruned_morsels t q.filter)
    → (r : Ramp) × Reach t q (start t q 1 1) r
      × AllEnded r.tasks
      × (r.shared.morsels_done < r.shared.morsels_total)
      × ¬ ((r' : Ramp) × Step t q r r')
ramp_can_hang t q some_morsel = elim (list_end (pruned_morsels t q.filter)) [
  | inl e ↦ absurd (omega (arith, some_morsel, ap length e))
  | inr (rest, m, e) ↦
      let begun = start t q 1 1 in
      let s = begun.shared in
      let joined : Ramp = record { shared = s; tasks = local nothing 0 ∷ waiting ∷ [] } in
      let joining : Reach t q begun joined =
        next here
          (task (local nothing 0 ∷ []) [] absent waiting refl (join refl refl refl refl) refl) in
      let serving_it : Reach t q begun (beside t q begun m s rest nothing 0) = next joining (
        task (local nothing 0 ∷ []) [] waiting (serving m) refl (serve rest m refl e refl refl)
          refl) in
      let (p, emptied) = drain t q begun m (length rest) s rest nothing 0 refl serving_it in
      let n : ℕ = 0 + length rest in
      let left : Ramp = record {
        shared = finish (record s { queue = [] }) p n;
        tasks = ended ∷ serving m ∷ [];
      } in
      let leaving : Reach t q begun left = next emptied (
        task [] (serving m ∷ []) (local p n) ended refl (local_finish p n refl refl refl refl)
          refl) in
      let lost : Ramp = record {
        shared = record left.shared { queue = m ∷ [] };
        tasks = ended ∷ ended ∷ [];
      } in
      let dying : Reach t q begun lost =
        next leaving
          (task (ended ∷ []) [] (serving m) ended refl (die_serving m refl refl refl) refl) in
      let short : lost.shared.morsels_done < lost.shared.morsels_total =
        omega (arith, ap length e, length-append rest (m ∷ [])) in
      (lost, dying, (refl, (refl, tt)), short, no_step_left t q lost (refl, (refl, tt)) short)
]
