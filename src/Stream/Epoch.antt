-- ===== src/Stream/Epoch.antt =====
-- crates/blitz-stream/src/lib.rs: `run_epoch`. The worker threads are a step relation: each step is what
-- one thread does under one lock, with the three writes behind a unit, which no other thread can tell
-- apart, as one. Clocks and delays are left out, and a unit's processing ends without a panic.
pub mod Threads
pub mod Pool
pub mod Finish
pub mod Drain
pub mod Commit
use alpheidae.Prelude.{
  ℕ, zero, suc, ◌+◌, ◌-◌, ◌%◌, ◌^◌, ◌≡◌, Bool, true, false, ◌&&◌, not, max, Option, none, some,
  List, [], ◌∷◌, ◌++◌, if◌then◌else◌, ltb, ◌==◌, length, replicate,
}
use alpheidae.Stream.Sizer.{SizerConfig, size_workers}
use alpheidae.Stream.Plan.{WorkUnit, Offsets, Source, committed, put, high_watermark, plan_work}

pub record EpochReport : Type 0 where
  pub epoch_id : ℕ
  pub lag_before : ℕ
  pub workers : ℕ
  pub units_total : ℕ
  pub records_processed : ℕ
  pub offsets_committed : List (ℕ × ℕ)

-- A thread between two units, one that has taken a unit and not yet recorded it, and one that has left
-- its loop.
pub data Thread : Type 0 where
  idle : Thread
  working : WorkUnit → Thread
  ended : Thread

-- What the worker threads share, and where each of them stands.
pub record Workers : Type 0 where
  pub queue : List WorkUnit
  pub threads : List Thread
  pub records : ℕ
  pub processed : ℕ
  pub progress : ℕ → ℕ

-- `if unit.end_offset > prog[p] { prog[p] = unit.end_offset; }`
abbrev pub raise : (ℕ → ℕ) → ℕ → ℕ → ℕ → ℕ
raise prog p end q = if p == q then (if ltb (prog q) end then end else prog q) else prog q

-- The lag of the partitions from `p` on, `n` of them.
unfoldable pub lag_from : ℕ → ℕ → Source → Offsets → ℕ
lag_from zero p source store = 0
lag_from (suc n) p source store =
    high_watermark source p - committed store p + lag_from n (p + 1) source store

abbrev pub offsets_from : ℕ → ℕ → Offsets → List (ℕ × ℕ)
offsets_from zero p store = []
offsets_from (suc n) p store = (p, committed store p) ∷ offsets_from n (p + 1) store

abbrev pub start_workers : ℕ → List WorkUnit → Offsets → Workers
start_workers workers units store = record {
  queue = units;
  threads = replicate workers idle;
  records = 0;
  processed = 0;
  progress = committed store;
}

module _ (process : WorkUnit → ℕ) where
  -- A thread takes the last unit of the queue, leaves its loop when there is none, or records the unit
  -- that it has processed. `fetch_add` wraps around.
  pub data Step (s t : Workers) : Type 0 where
    pop :
        (before after : List Thread) (rest : List WorkUnit) (u : WorkUnit)
        → s.threads ≡ before ++ (idle ∷ after)
        → s.queue ≡ rest ++ (u ∷ [])
        → t ≡ record s { queue = rest; threads = before ++ (working u ∷ after) }
        → Step s t
    leave :
        (before after : List Thread)
        → s.threads ≡ before ++ (idle ∷ after)
        → s.queue ≡ []
        → t ≡ record s { threads = before ++ (ended ∷ after) }
        → Step s t
    finish :
        (before after : List Thread) (u : WorkUnit)
        → s.threads ≡ before ++ (working u ∷ after)
        → t ≡ record s {
          threads = before ++ (idle ∷ after);
          records = (s.records + process u) % 2 ^ 64;
          processed = (s.processed + 1) % 2 ^ 64;
          progress = raise s.progress u.partition u.end_offset;
        }
        → Step s t

  pub data Reach (s : Workers) : Workers → Type 0 where
    here : Reach s s
    next : {t u : Workers} → Reach s t → Step t u → Reach s u

-- The scope is left when all threads have ended.
abbrev pub AllEnded : List Thread → Type 0
AllEnded [] = Unit
AllEnded (ended ∷ ts) = AllEnded ts
AllEnded (_ ∷ ts) = ⊥

abbrev pub IsJoined : Workers → Type 0
IsJoined s = AllEnded s.threads

-- The loop that commits the offsets. `accepts` says whether the store takes a put; the first that it
-- refuses ends the epoch with an error, and what was put before stays.
unfoldable pub commit_loop :
    ℕ → ℕ → (ℕ → Bool) → (ℕ → ℕ) → Offsets → List (ℕ × ℕ) → Offsets × Option (List (ℕ × ℕ))
commit_loop zero p accepts prog store out = (store, some out)
commit_loop (suc n) p accepts prog store out =
    let ahead = ltb (committed store p) (prog p) in
    let stored : Offsets = if ahead then put store p (prog p) else store in
    let rest = commit_loop n (p + 1) accepts prog stored (out ++ ((p, committed stored p) ∷ [])) in
    if ahead && not (accepts p) then (store, none) else rest

-- The report of an epoch that ends well.
unfoldable pub report : ℕ → ℕ → ℕ → ℕ → ℕ → List (ℕ × ℕ) → EpochReport
report epoch_id lag workers units records offsets = record {
  epoch_id = epoch_id;
  lag_before = lag;
  workers = workers;
  units_total = units;
  records_processed = records;
  offsets_committed = offsets;
}

-- The epoch once it is sized and planned. `pool` says what the threads make of the state that they
-- start in. `none` in the second place is an `Err`.
unfoldable pub epoch_sized :
    ℕ
    → Source
    → Offsets
    → List WorkUnit
    → ℕ
    → ℕ
    → (ℕ → Bool)
    → (Workers → Workers)
    → Offsets × Option EpochReport
unfolding report
epoch_sized epoch_id source store units lag workers accepts pool =
    let partitions = length source in
    if length units == 0
    then (store, some (report epoch_id lag workers 0 0 (offsets_from partitions 0 store)))
    else (let joined = pool (start_workers workers units store) in
        let (stored, done) = commit_loop partitions 0 accepts joined.progress store [] in
        (
          stored,
          elim done [
            | none ↦ none
            | some offsets ↦
                some (report epoch_id lag workers (length units) joined.records offsets)
          ],
        ))

-- `none` is a panic, of `size_workers` or of `plan_work`.
unfoldable pub run_epoch :
    ℕ
    → Source
    → Offsets
    → SizerConfig
    → ℕ
    → (ℕ → Bool)
    → (Workers → Workers)
    → Option (Offsets × Option EpochReport)
unfolding epoch_sized
run_epoch epoch_id source store sizer n_local accepts pool =
    let lag = lag_from (length source) 0 source store in
    elim (size_workers lag sizer) [
      | none ↦ none
      | some sized ↦ elim (plan_work source store sizer.max_records_per_unit) [
        | none ↦ none
        | some units ↦
            some (epoch_sized epoch_id source store units lag (max sized n_local) accepts pool)
      ]
    ]
