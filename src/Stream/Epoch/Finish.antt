-- ===== src/Stream/Epoch/Finish.antt =====
-- The loops of the worker threads of an epoch of crates/blitz-stream come to their end.
use alpheidae.Prelude.{
  ℕ, zero, suc, ◌+◌, ◌*◌, ◌%◌, ◌^◌, ◌≡◌, refl, ap, List, [], ◌∷◌, ◌++◌, length, arith,
  length-append, replicate, ◌≤◌, ◌⊎◌, inl, inr,
}
use alpheidae.Stream.Plan.{WorkUnit, Offsets}
use alpheidae.Stream.Epoch.{
  Thread, idle, working, ended, Workers, start_workers, raise, Step, pop, leave, finish, Reach,
  here, next, AllEnded, IsJoined,
}

-- What the threads have still to do: to take a unit, to record one, to leave.
abbrev pub to_do : List Thread → ℕ
to_do [] = 0
to_do (idle ∷ ts) = 1 + to_do ts
to_do (working u ∷ ts) = 2 + to_do ts
to_do (ended ∷ ts) = to_do ts

abbrev pub work : Workers → ℕ
work s = 2 * length s.queue + to_do s.threads

to_do-append : (ts us : List Thread) → to_do (ts ++ us) ≡ to_do ts + to_do us
to_do-append [] us = omega arith
to_do-append (idle ∷ ts) us = omega (arith, to_do-append ts us)
to_do-append (working u ∷ ts) us = omega (arith, to_do-append ts us)
to_do-append (ended ∷ ts) us = to_do-append ts us

to_do-start : (n : ℕ) → to_do (replicate n idle) ≡ n
to_do-start zero = refl
to_do-start (suc n) = omega (arith, to_do-start n)

-- Where not all threads have ended, one is idle or has a unit.
data Busy (threads : List Thread) : Type 0 where
  is_idle : (before after : List Thread) → threads ≡ before ++ (idle ∷ after) → Busy threads
  is_working :
      (before after : List Thread) (u : WorkUnit)
      → threads ≡ before ++ (working u ∷ after)
      → Busy threads

Busy-later : (t : Thread) (ts : List Thread) → Busy ts → Busy (t ∷ ts)
Busy-later t ts (is_idle before after e) = is_idle (t ∷ before) after (ap (◌∷◌ t) e)
Busy-later t ts (is_working before after u e) = is_working (t ∷ before) after u (ap (◌∷◌ t) e)

idle_or_working : (ts : List Thread) → AllEnded ts ⊎ Busy ts
idle_or_working [] = inl tt
idle_or_working (idle ∷ ts) = inr (is_idle [] ts refl)
idle_or_working (working u ∷ ts) = inr (is_working [] ts u refl)
idle_or_working (ended ∷ ts) = elim (idle_or_working ts) [
  | inl all ↦ inl all
  | inr busy ↦ inr (Busy-later ended ts busy)
]

queue_end :
    (us : List WorkUnit)
    → (us ≡ []) ⊎ ((rest : List WorkUnit) × (u : WorkUnit) × (us ≡ rest ++ (u ∷ [])))
queue_end [] = inl refl
queue_end (u ∷ us) = elim (queue_end us) [
  | inl e ↦ inr ([], u, ap (◌∷◌ u) e)
  | inr (rest, v, e) ↦ inr (u ∷ rest, v, ap (◌∷◌ u) e)
]

module _ (process : WorkUnit → ℕ) where
  Step-work : {s t : Workers} → Step process s t → 1 + work t ≡ work s
  Step-work {s} (pop before after rest u th e f) = rw f (
      omega (
        arith,
        ap length e,
        length-append rest (u ∷ []),
        ap to_do th,
        to_do-append before (idle ∷ after),
        to_do-append before (working u ∷ after),
      ))
  Step-work {s} (leave before after th e f) = rw f (
      omega (
        arith,
        ap to_do th,
        to_do-append before (idle ∷ after),
        to_do-append before (ended ∷ after),
      ))
  Step-work {s} (finish before after u th f) = rw f (
      omega (
        arith,
        ap to_do th,
        to_do-append before (working u ∷ after),
        to_do-append before (idle ∷ after),
      ))

  abbrev pub run_length : {s t : Workers} → Reach process s t → ℕ
  run_length here = 0
  run_length (next r st) = 1 + run_length r

  some_step : (s : Workers) → IsJoined s ⊎ ((t : Workers) × Step process s t)
  some_step s = elim (idle_or_working s.threads) [
    | inl all ↦ inl all
    | inr (is_working before after u th) ↦ inr (
      record s {
        threads = before ++ (idle ∷ after);
        records = (s.records + process u) % 2 ^ 64;
        processed = (s.processed + 1) % 2 ^ 64;
        progress = raise s.progress u.partition u.end_offset;
      },
      finish before after u th refl,
    )
    | inr (is_idle before after th) ↦ elim (queue_end s.queue) [
      | inl none_left ↦
          inr
            (record s { threads = before ++ (ended ∷ after) }, leave before after th none_left refl)
      | inr (rest, u, e) ↦ inr (
        record s { queue = rest; threads = before ++ (working u ∷ after) },
        pop before after rest u th e refl,
      )
    ]
  ]

  go_on :
      (s : Workers) (k : ℕ) (t : Workers)
      → work t ≡ k
      → Reach process s t
      → (u : Workers) × Reach process s u × IsJoined u
  go_on s zero t w r = elim (some_step t) [
    | inl all ↦ (t, r, all)
    | inr (u, st) ↦ absurd (omega (arith, w, Step-work st))
  ]
  go_on s (suc k) t w r = elim (some_step t) [
    | inl all ↦ (t, r, all)
    | inr (u, st) ↦ go_on s k u (omega (arith, w, Step-work st)) (next r st)
  ]

  run_length_lem : {s t : Workers} (r : Reach process s t) → run_length r + work t ≡ work s
  run_length_lem here = omega arith
  run_length_lem (next r st) = omega (arith, run_length_lem r, Step-work st)

-- The threads come to their end. From any state that they reach some schedule leads on to one in which
-- they have all ended, and no schedule, whatever its order, takes more than two steps for each unit
-- and one for each thread.
pub threads_finish :
    (process : WorkUnit → ℕ) (workers : ℕ) (units : List WorkUnit) (store : Offsets) {s : Workers}
    (r : Reach process (start_workers workers units store) s)
    → ((t : Workers) × Reach process s t × IsJoined t)
      × (run_length process r ≤ 2 * length units + workers)
threads_finish process workers units store {s} r = (
  go_on process s (work s) s refl here,
  omega (arith, run_length_lem process r, to_do-start workers),
)
