-- ===== src/Exec/Ramp/Kept.antt =====
-- One step of a thread in a ramped query, on the morsels that it moves.
use alpheidae.Prelude.{
  ℕ, ◌+◌, ◌≡◌, refl, sym, ap, subst, ◌∙◌, List, [], ◌∷◌, ◌++◌, length, length-append, arith,
  append-nil,
}
use alpheidae.Core.Agg.{default, push_all}
use alpheidae.Cluster.{ClusteredTable}
use alpheidae.Sql.{Clauses}
use alpheidae.Exec.{Partial, merge}
use alpheidae.Exec.Algebra.{entry_of}
use alpheidae.Exec.Answers.{Values, both, Answers, AreI64, merge-Answers}
use alpheidae.Exec.Bags.{count, count-append, flat, flat-append, flat-I64}
use alpheidae.Exec.Ramp.{
  Shared, Task, local, absent, waiting, ended, serving, morsel, TaskStep, local_pop, local_finish,
  join, serve, answer, die_serving, panic_serving, die_waiting, leave,
}

-- The values of several morsels, one after another.
abbrev pub values_of : (ℕ → Values) → List ℕ → Values
values_of value ms = record {
  plain = flat (λ m. (value m).plain) ms;
  keyed = λ k. flat (λ m. (value m).keyed k) ms;
}

-- The morsels that a thread holds; one that has ended may have lost some.
abbrev pub IsHeld : (ℕ → Values) → Task → List ℕ → Type 0
IsHeld value (local p n) ms = Answers p (values_of value ms) × (n ≡ length ms)
IsHeld value absent ms = ms ≡ []
IsHeld value waiting ms = ms ≡ []
IsHeld value ended ms = Unit
IsHeld value (serving m) ms = ms ≡ m ∷ []

abbrev pub AllHeld : (ℕ → Values) → List Task → List ℕ → Type 0
AllHeld value [] ms = ms ≡ []
AllHeld value (a ∷ tasks) ms =
    (mine : List ℕ) × (others : List ℕ) × IsHeld value a mine
    × AllHeld value tasks others
    × (ms ≡ mine ++ others)

-- What a step of one thread does: the morsels in the queue, with the thread and in the result stay the
-- same morsels, and the result answers for those that have landed.
pub record IsKept (value : ℕ → Values) (s : Shared) (ms landed : List ℕ) (s' : Shared) (a' : Task)
    : Type 0 where
  pub now : List ℕ
  pub landed' : List ℕ
  pub held : IsHeld value a' now
  pub answers : Answers s'.result (values_of value landed')
  pub same :
      (m : ℕ)
      → count m s'.queue + count m now + count m landed'
        ≡ count m s.queue + count m ms + count m landed
  pub size :
      length s'.queue + length now + length landed' ≡ length s.queue + length ms + length landed
  pub done : s'.morsels_done ≡ length landed'
  pub total : s'.morsels_total ≡ s.morsels_total

module _ (t : ClusteredTable) (q : Clauses) (value : ℕ → Values) (i64s : (m : ℕ) → AreI64 (value m))
    (answered : (m : ℕ) → Answers (morsel t q m) (value m)) where
  values-I64 : (ms : List ℕ) → AreI64 (values_of value ms)
  values-I64 ms = (
    flat-I64 (λ m. (value m).plain) ms (λ m. (i64s m).0),
    λ k. flat-I64 (λ m. (value m).keyed k) ms (λ m. (i64s m).1 k),
  )

  values-append :
      (xs ys : List ℕ) → both (values_of value xs) (values_of value ys) ≡ values_of value (xs ++ ys)
  values-append xs ys = sym (λ i. record {
    plain = flat-append (λ m. (value m).plain) xs ys i;
    keyed = λ k. flat-append (λ m. (value m).keyed k) xs ys i;
  })

  merge_landed :
      (p o : Partial) (xs ys : List ℕ)
      → Answers p (values_of value xs)
      → Answers o (values_of value ys)
      → Answers (merge p o) (values_of value (xs ++ ys))
  merge_landed p o xs ys a b =
      subst (Answers (merge p o)) (values-append xs ys)
        (merge-Answers p o (values_of value xs) (values_of value ys) (values-I64 xs) a b)

  one : (m : ℕ) → Answers (morsel t q m) (values_of value (m ∷ []))
  unfolding flat
  one m =
      let a = answered m in
      record {
        scalar = a.scalar ∙ ap (push_all default) (sym (append-nil (value m).plain));
        groups = λ k. a.groups k ∙ ap entry_of (sym (append-nil ((value m).keyed k)));
        distinct = a.distinct;
      }

  counted :
      (rest : List ℕ) (m : ℕ) {queue : List ℕ}
      → queue ≡ rest ++ (m ∷ [])
      → (k : ℕ) → count k queue ≡ count k rest + count k (m ∷ [])
  counted rest m e k = ap (count k) e ∙ count-append k rest (m ∷ [])

  sized :
      (rest : List ℕ) (m : ℕ) {queue : List ℕ}
      → queue ≡ rest ++ (m ∷ [])
      → length queue ≡ length rest + 1
  sized rest m e = ap length e ∙ length-append rest (m ∷ [])

  put :
      {s s' s1 : Shared} {a' a1 : Task} {ms landed : List ℕ}
      → s' ≡ s1
      → a' ≡ a1
      → IsKept value s ms landed s1 a1
      → IsKept value s ms landed s' a'
  put {s} {s'} {s1} {a'} {a1} {ms} {landed} es ea kept =
      subst (λ s'. IsKept value s ms landed s' a') (sym es)
        (subst (IsKept value s ms landed s1) (sym ea) kept)

  -- A thread without a morsel before and after, and nothing else changed.
  idle :
      (s : Shared) (a1 : Task) (ms landed : List ℕ)
      → ms ≡ []
      → IsHeld value a1 []
      → Answers s.result (values_of value landed)
      → s.morsels_done ≡ length landed
      → IsKept value s ms landed s a1
  idle s a1 ms landed e held ans d = record {
    now = [];
    landed' = landed;
    held = held;
    answers = ans;
    same = λ k. omega (arith, ap (count k) e);
    size = omega (arith, ap length e);
    done = d;
    total = refl;
  }

  pub TaskStep-IsKept :
      (s s' : Shared) (a a' : Task) (ms landed : List ℕ)
      → IsHeld value a ms
      → Answers s.result (values_of value landed)
      → s.morsels_done ≡ length landed
      → TaskStep t q s a s' a'
      → IsKept value s ms landed s' a'
  unfolding count
  TaskStep-IsKept s s' a a' ms landed held ans d (local_pop p n rest m e pop es ea) =
      let (mine, size) = subst (λ a. IsHeld value a ms) e held in
      put es ea (record {
        now = ms ++ (m ∷ []);
        landed' = landed;
        held = (
          merge_landed p (morsel t q m) ms (m ∷ []) mine (one m),
          omega (arith, size, length-append ms (m ∷ [])),
        );
        answers = ans;
        same = λ k. omega (arith, counted rest m pop k, count-append k ms (m ∷ []));
        size = omega (arith, sized rest m pop, length-append ms (m ∷ []));
        done = d;
        total = refl;
      })
  TaskStep-IsKept s s' a a' ms landed held ans d (local_finish p n e empty es ea) =
      let (mine, size) = subst (λ a. IsHeld value a ms) e held in
      put es ea (record {
        now = [];
        landed' = landed ++ ms;
        held = tt;
        answers = merge_landed s.result p landed ms ans mine;
        same = λ k. omega (arith, count-append k landed ms);
        size = omega (arith, length-append landed ms);
        done = omega (arith, d, size, length-append landed ms);
        total = refl;
      })
  TaskStep-IsKept s s' a a' ms landed held ans d (join e open' es ea) =
      put es ea (idle s waiting ms landed (subst (λ a. IsHeld value a ms) e held) refl ans d)
  TaskStep-IsKept s s' a a' ms landed held ans d (serve rest m e pop es ea) =
      let none_held = subst (λ a. IsHeld value a ms) e held in
      put es ea (record {
        now = m ∷ [];
        landed' = landed;
        held = refl;
        answers = ans;
        same = λ k. omega (arith, counted rest m pop k, ap (count k) none_held);
        size = omega (arith, sized rest m pop, ap length none_held);
        done = d;
        total = refl;
      })
  TaskStep-IsKept s s' a a' ms landed held ans d (answer m e es ea) =
      let mine = subst (λ a. IsHeld value a ms) e held in
      put es ea (record {
        now = [];
        landed' = landed ++ (m ∷ []);
        held = refl;
        answers = merge_landed s.result (morsel t q m) landed (m ∷ []) ans (one m);
        same = λ k. omega (arith, count-append k landed (m ∷ []), ap (count k) mine);
        size = omega (arith, length-append landed (m ∷ []), ap length mine);
        done = omega (arith, d, length-append landed (m ∷ []));
        total = refl;
      })
  TaskStep-IsKept s s' a a' ms landed held ans d (die_serving m e es ea) =
      let mine = subst (λ a. IsHeld value a ms) e held in
      put es ea (record {
        now = [];
        landed' = landed;
        held = tt;
        answers = ans;
        same = λ k. omega (arith, count-append k s.queue (m ∷ []), ap (count k) mine);
        size = omega (arith, length-append s.queue (m ∷ []), ap length mine);
        done = d;
        total = refl;
      })
  TaskStep-IsKept s s' a a' ms landed held ans d (panic_serving m e es ea) = put es ea (record {
    now = ms;
    landed' = landed;
    held = tt;
    answers = ans;
    same = λ k. refl;
    size = refl;
    done = d;
    total = refl;
  })
  TaskStep-IsKept s s' a a' ms landed held ans d (die_waiting e es ea) =
      put es ea (idle s ended ms landed (subst (λ a. IsHeld value a ms) e held) tt ans d)
  TaskStep-IsKept s s' a a' ms landed held ans d (leave e empty es ea) =
      put es ea (idle s ended ms landed (subst (λ a. IsHeld value a ms) e held) tt ans d)
