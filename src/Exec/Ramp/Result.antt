-- ===== src/Exec/Ramp/Result.antt =====
-- The result of a ramped query does not depend on which threads worked on which morsels.
use alpheidae.Prelude.{
  ℕ, zero, suc, ◌+◌, ◌≤◌, ◌≡◌, true, refl, sym, ap, subst, ◌∙◌, List, [], ◌∷◌, ◌++◌, length,
  length-append, replicate, arith,
}
use alpheidae.Cluster.{ClusteredTable, pruned_morsels}
use alpheidae.Sql.{Clauses}
use alpheidae.Exec.{Partial, nothing}
use alpheidae.Core.Agg.{push_all, default, merge-push_all}
use alpheidae.Core.Agg
use alpheidae.Exec.Algebra.{entry_of, entry_of-front, total_front}
use alpheidae.Exec.Answers.{Values, Answers, AreI64, nothing-Answers, join, join_lem}
use alpheidae.Exec.Bags.{count, count-append, Same, flat, total-Same}
use alpheidae.Exec.Ramp.{
  Task, local, absent, Ramp, start, morsel, Step, task, complete, Reach, here, next,
}
use alpheidae.Exec.Ramp.Kept.{values_of, IsHeld, AllHeld, TaskStep-IsKept}

-- The lists `xs` and `ys` together are `zs`, as bags.
record IsSum (xs ys zs : List ℕ) : Type 0 where
  counts : (k : ℕ) → count k zs ≡ count k xs + count k ys
  sizes : length zs ≡ length xs + length ys

append-IsSum : (xs ys : List ℕ) → IsSum xs ys (xs ++ ys)
append-IsSum xs ys = record { counts = λ k. count-append k xs ys; sizes = length-append xs ys }

-- One thread among the others, and what another state of it makes of them.
record IsSplit (value : ℕ → Values) (before after : List Task) (a : Task) (held : List ℕ)
    : Type 0 where
  mine : List ℕ
  others : List ℕ
  is_mine : IsHeld value a mine
  sum : IsSum mine others held
  put :
      (a' : Task) (now : List ℕ)
      → IsHeld value a' now
      → (held' : List ℕ) × AllHeld value (before ++ (a' ∷ after)) held' × IsSum now others held'

AllHeld-IsSplit :
    (value : ℕ → Values) (before after : List Task) (a : Task) (held : List ℕ)
    → AllHeld value (before ++ (a ∷ after)) held
    → IsSplit value before after a held
AllHeld-IsSplit value [] after a held (mine, others, is_mine, rest, e) = record {
  mine = mine;
  others = others;
  is_mine = is_mine;
  sum = subst (IsSum mine others) (sym e) (append-IsSum mine others);
  put = λ a' now h. (now ++ others, (now, others, h, rest, refl), append-IsSum now others);
}
AllHeld-IsSplit value (b ∷ before) after a held (first, rest, is_first, is_rest, e) =
    let x = AllHeld-IsSplit value before after a rest is_rest in
    let s = append-IsSum first rest in
    record {
      mine = x.mine;
      others = first ++ x.others;
      is_mine = x.is_mine;
      sum = record {
        counts = λ k.
            omega
              (arith, ap (count k) e, s.counts k, x.sum.counts k, count-append k first x.others);
        sizes = omega (arith, ap length e, s.sizes, x.sum.sizes, length-append first x.others);
      };
      put = λ a' now h.
          let (held', all, y) = x.put a' now h in
          (
            first ++ held',
            (first, held', is_first, all, refl),
            record {
              counts = λ k.
                  omega
                    (arith, y.counts k, count-append k first held', count-append k first x.others);
              sizes =
                  omega (arith, y.sizes, length-append first held', length-append first x.others);
            },
          );
    }

length_zero : (xs : List ℕ) → length xs ≡ 0 → xs ≡ []
length_zero [] h = refl
length_zero (x ∷ xs) h = absurd (omega arith)

-- No morsel is lost, and none counts twice.
record IsWhole (value : ℕ → Values) (morsels : List ℕ) (r : Ramp) : Type 0 where
  held : List ℕ
  landed : List ℕ
  all : AllHeld value r.tasks held
  answers : Answers r.shared.result (values_of value landed)
  same : (k : ℕ) → count k r.shared.queue + count k held + count k landed ≡ count k morsels
  size : length r.shared.queue + length held + length landed ≡ length morsels
  done : r.shared.morsels_done ≡ length landed
  total : r.shared.morsels_total ≡ length morsels

workers_none : (value : ℕ → Values) (n : ℕ) → AllHeld value (replicate n absent) []
workers_none value zero = refl
workers_none value (suc n) = ([], [], refl, workers_none value n, refl)

threads_none :
    (value : ℕ → Values) (n : ℕ) (tasks : List Task)
    → AllHeld value tasks []
    → AllHeld value (replicate n (local nothing 0) ++ tasks) []
unfolding flat
threads_none value zero tasks h = h
threads_none value (suc n) tasks h =
    ([], [], (nothing-Answers, refl), threads_none value n tasks h, refl)

module _ (t : ClusteredTable) (q : Clauses) (value : ℕ → Values) (i64s : (m : ℕ) → AreI64 (value m))
    (answered : (m : ℕ) → Answers (morsel t q m) (value m)) where
  abbrev morsels : List ℕ
  morsels = pruned_morsels t q.filter

  start-IsWhole : (threads workers : ℕ) → IsWhole value morsels (start t q threads workers)
  unfolding count flat
  start-IsWhole threads workers = record {
    held = [];
    landed = [];
    all = threads_none value threads (replicate workers absent) (workers_none value workers);
    answers = nothing-Answers;
    same = λ k. omega arith;
    size = omega arith;
    done = refl;
    total = refl;
  }

  Step-IsWhole : {r r' : Ramp} → Step t q r r' → IsWhole value morsels r → IsWhole value morsels r'
  Step-IsWhole {r} {r'} (task before after a a' e st e') w =
      let x =
        AllHeld-IsSplit value before after a w.held
          (subst (λ ts. AllHeld value ts w.held) e w.all) in
      let y =
        TaskStep-IsKept t q value i64s answered r.shared r'.shared a a' x.mine w.landed x.is_mine
          w.answers w.done st in
      let (held', all, z) = x.put a' y.now y.held in
      record {
        held = held';
        landed = y.landed';
        all = subst (λ ts. AllHeld value ts held') (sym e') all;
        answers = y.answers;
        same = λ k. omega (arith, w.same k, x.sum.counts k, y.same k, z.counts k);
        size = omega (arith, w.size, x.sum.sizes, y.size, z.sizes);
        done = y.done;
        total = y.total ∙ w.total;
      }
  Step-IsWhole {r} {r'} (complete joined le es et) w =
      subst (λ s. IsWhole value morsels (record { shared = s; tasks = r'.tasks })) (sym es)
        (subst
          (λ ts.
            IsWhole value morsels
              (record { shared = record r.shared { done_local = true }; tasks = ts }))
          (sym et)
          (record {
            held = w.held;
            landed = w.landed;
            all = w.all;
            answers = w.answers;
            same = w.same;
            size = w.size;
            done = w.done;
            total = w.total;
          }))

  Reach-IsWhole :
      (threads workers : ℕ) {r : Ramp}
      → Reach t q (start t q threads workers) r
      → IsWhole value morsels r
  Reach-IsWhole threads workers here = start-IsWhole threads workers
  Reach-IsWhole threads workers (next before st) =
      Step-IsWhole st (Reach-IsWhole threads workers before)

  Answers-Same :
      (p : Partial) (xs ys : List ℕ)
      → Same xs ys
      → Answers p (values_of value xs)
      → Answers p (values_of value ys)
  Answers-Same p xs ys same a = record {
    scalar =
        a.scalar
        ∙ total-Same (push_all default) Agg.merge (λ vs ws h. sym (merge-push_all vs ws h))
            total_front (λ m. (value m).plain) (λ m. (i64s m).0) xs ys same;
    groups = λ k.
        a.groups k
        ∙ total-Same entry_of join (λ vs ws h. sym (join_lem vs ws h)) entry_of-front
            (λ m. (value m).keyed k) (λ m. (i64s m).1 k) xs ys same;
    distinct = a.distinct;
  }

  -- When as many morsels are done as there are, the result answers for all of them.
  pub done_answers :
      (threads workers : ℕ) (r : Ramp)
      → Reach t q (start t q threads workers) r
      → r.shared.morsels_total ≤ r.shared.morsels_done
      → Answers r.shared.result (values_of value morsels)
  unfolding count
  done_answers threads workers r reach le =
      let w = Reach-IsWhole threads workers reach in
      let no_queue = length_zero r.shared.queue (omega (arith, w.size, w.done, w.total)) in
      let no_held = length_zero w.held (omega (arith, w.size, w.done, w.total)) in
      Answers-Same r.shared.result w.landed morsels
        (λ k. omega (arith, w.same k, ap (count k) no_queue, ap (count k) no_held)) w.answers
