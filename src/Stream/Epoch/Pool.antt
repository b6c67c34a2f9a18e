-- ===== src/Stream/Epoch/Pool.antt =====
-- What the worker threads of an epoch leave behind, in whatever order they work.
use alpheidae.Prelude.{
  ℕ, length-replicate, sym, ◌∙◌, ◌+◌, ◌<◌, ◌≡◌, ap, max, ◌%◌, ◌^◌, List, [], ◌∷◌, ◌++◌,
  if◌then◌else◌, ◌==◌, length, arith, length-append,
}
use alpheidae.Stream.Plan.{WorkUnit, Offsets, committed}
use alpheidae.Stream.Epoch.{
  Thread, idle, working, ended, leave, Workers, raise, start_workers, Step, pop, finish, Reach,
  here, next, IsJoined,
}
use alpheidae.Stream.Epoch.Threads.{
  running, count_ended, running-append, count_ended-append, running-replicate,
  count_ended-replicate, AllEnded-running, AllEnded-count,
}

abbrev pub total : (WorkUnit → ℕ) → List WorkUnit → ℕ
total w [] = 0
total w (u ∷ us) = w u + total w us

-- How far the units of partition `q` go.
abbrev pub reach : ℕ → List WorkUnit → ℕ
reach q [] = 0
reach q (u ∷ us) = max (if u.partition == q then u.end_offset else 0) (reach q us)

pub total-append :
    (w : WorkUnit → ℕ) (us vs : List WorkUnit) → total w (us ++ vs) ≡ total w us + total w vs
total-append w [] vs = omega arith
total-append w (u ∷ us) vs = omega (arith, total-append w us vs)

pub reach-append :
    (q : ℕ) (us vs : List WorkUnit) → reach q (us ++ vs) ≡ max (reach q us) (reach q vs)
reach-append q [] vs = omega arith
reach-append q (u ∷ us) vs = omega (arith, reach-append q us vs)

-- Nothing is lost and nothing is counted twice: what is recorded, running and queued is the plan. And
-- a thread ends only when the queue is empty.
pub record IsWhole (workers : ℕ) (process : WorkUnit → ℕ) (units : List WorkUnit) (store : Offsets)
    (s : Workers) : Type 0 where
  pub threads : length s.threads ≡ workers
  pub drained : 0 < count_ended s.threads → s.queue ≡ []
  pub records :
      (s.records + total process s.queue + total process (running s.threads)) % 2 ^ 64
      ≡ total process units % 2 ^ 64
  pub small : s.records < 2 ^ 64
  pub processed :
      (s.processed + length s.queue + length (running s.threads)) % 2 ^ 64 ≡ length units % 2 ^ 64
  pub few : s.processed < 2 ^ 64
  pub progress :
      (q : ℕ)
      → max (s.progress q) (max (reach q s.queue) (reach q (running s.threads)))
        ≡ max (committed store q) (reach q units)

module _ (workers : ℕ) (process : WorkUnit → ℕ) (units : List WorkUnit) (store : Offsets) where
  start-IsWhole : IsWhole workers process units store (start_workers workers units store)
  start-IsWhole =
      let none_runs = running-replicate workers in
      record {
        threads = length-replicate workers idle;
        drained = λ pos. absurd (omega (arith, pos, count_ended-replicate workers));
        records = omega (arith, ap (total process) none_runs);
        small = omega arith;
        processed = omega (arith, ap length none_runs);
        few = omega arith;
        progress = λ q. omega (arith, ap (reach q) none_runs);
      }

  raise_lem :
      (prog : ℕ → ℕ) (u : WorkUnit) (q : ℕ)
      → raise prog u.partition u.end_offset q
        ≡ max (prog q) (if u.partition == q then u.end_offset else 0)
  raise_lem prog u q = ground arith

  total-running :
      (ts us : List Thread)
      → total process (running (ts ++ us)) ≡ total process (running ts) + total process (running us)
  total-running ts us =
      ap (total process) (running-append ts us) ∙ total-append process (running ts) (running us)

  length-running :
      (ts us : List Thread)
      → length (running (ts ++ us)) ≡ length (running ts) + length (running us)
  length-running ts us = ap length (running-append ts us) ∙ length-append (running ts) (running us)

  reach-running :
      (q : ℕ) (ts us : List Thread)
      → reach q (running (ts ++ us)) ≡ max (reach q (running ts)) (reach q (running us))
  reach-running q ts us =
      ap (reach q) (running-append ts us) ∙ reach-append q (running ts) (running us)

  Step-IsWhole :
      {s t : Workers}
      → Step process s t
      → IsWhole workers process units store s
      → IsWhole workers process units store t
  Step-IsWhole {s} (pop before after rest u th e f) w = rw f (record {
    threads = omega (
      arith,
      w.threads,
      ap length th,
      length-append before (idle ∷ after),
      length-append before (working u ∷ after),
    );
    drained = λ pos. absurd (
        omega (
          arith,
          length-append rest (u ∷ []),
          ap length e,
          ap length (
              w.drained (
                omega (
                  arith,
                  pos,
                  ap count_ended th,
                  count_ended-append before (idle ∷ after),
                  count_ended-append before (working u ∷ after),
                ))),
        ));
    records = omega (
      arith,
      w.records,
      ap (total process) e,
      total-append process rest (u ∷ []),
      ap (λ ts. total process (running ts)) th,
      total-running before (idle ∷ after),
      total-running before (working u ∷ after),
    );
    small = w.small;
    processed = omega (
      arith,
      w.processed,
      ap length e,
      length-append rest (u ∷ []),
      ap (λ ts. length (running ts)) th,
      length-running before (idle ∷ after),
      length-running before (working u ∷ after),
    );
    few = w.few;
    progress = λ q. omega (
      arith,
      w.progress q,
      ap (reach q) e,
      reach-append q rest (u ∷ []),
      ap (λ ts. reach q (running ts)) th,
      reach-running q before (idle ∷ after),
      reach-running q before (working u ∷ after),
    );
  })
  Step-IsWhole {s} (leave before after th e f) w =
      let same_units : running s.threads ≡ running (before ++ (ended ∷ after)) =
        ap running th
        ∙ running-append before (idle ∷ after)
        ∙ sym (running-append before (ended ∷ after)) in
      rw f (record {
        threads = omega (
          arith,
          w.threads,
          ap length th,
          length-append before (idle ∷ after),
          length-append before (ended ∷ after),
        );
        drained = λ pos. e;
        records = omega (arith, w.records, ap (total process) same_units);
        small = w.small;
        processed = omega (arith, w.processed, ap length same_units);
        few = w.few;
        progress = λ q. omega (arith, w.progress q, ap (reach q) same_units);
      })
  Step-IsWhole {s} (finish before after u th f) w = rw f (record {
    threads = omega (
      arith,
      w.threads,
      ap length th,
      length-append before (working u ∷ after),
      length-append before (idle ∷ after),
    );
    drained = λ pos. w.drained (
        omega (
          arith,
          pos,
          ap count_ended th,
          count_ended-append before (idle ∷ after),
          count_ended-append before (working u ∷ after),
        ));
    records = omega (
      arith,
      w.records,
      ap (λ ts. total process (running ts)) th,
      total-running before (idle ∷ after),
      total-running before (working u ∷ after),
    );
    small = omega arith;
    processed = omega (
      arith,
      w.processed,
      ap (λ ts. length (running ts)) th,
      length-running before (idle ∷ after),
      length-running before (working u ∷ after),
    );
    few = omega arith;
    progress = λ q. omega (
      arith,
      w.progress q,
      ap (λ ts. reach q (running ts)) th,
      reach-running q before (idle ∷ after),
      reach-running q before (working u ∷ after),
      raise_lem s.progress u q,
    );
  })

  Reach-IsWhole :
      {s : Workers}
      → Reach process (start_workers workers units store) s
      → IsWhole workers process units store s
  Reach-IsWhole here = start-IsWhole
  Reach-IsWhole (next r st) = Step-IsWhole st (Reach-IsWhole r)

  -- When the threads, at least one, have all ended, nothing is queued.
  pub joined_queue :
      {s : Workers}
      → 0 < workers
      → Reach process (start_workers workers units store) s
      → IsJoined s
      → s.queue ≡ []
  joined_queue {s} pos r all_ended =
      let w = Reach-IsWhole r in
      w.drained (omega (arith, AllEnded-count s.threads all_ended, w.threads))

  -- However the threads interleave, when at least one was started and they have all ended, every unit
  -- was processed exactly once: the records are the sum over the plan and the count is its length,
  -- both as words of 64 bits, and the progress of a partition is its committed offset or the end of
  -- its last unit, whichever is later.
  pub joined_lem :
      {s : Workers}
      → 0 < workers
      → Reach process (start_workers workers units store) s
      → IsJoined s
      → (s.records ≡ total process units % 2 ^ 64)
        × (s.processed ≡ length units % 2 ^ 64)
        × ((q : ℕ) → s.progress q ≡ max (committed store q) (reach q units))
  joined_lem {s} pos r all_ended =
      let w = Reach-IsWhole r in
      let no_queue = joined_queue pos r all_ended in
      let no_running = AllEnded-running s.threads all_ended in
      (
        omega
            (arith, w.records, w.small, ap (total process) no_queue, ap (total process) no_running),
        omega (arith, w.processed, w.few, ap length no_queue, ap length no_running),
        λ q. omega (arith, w.progress q, ap (reach q) no_queue, ap (reach q) no_running),
      )
