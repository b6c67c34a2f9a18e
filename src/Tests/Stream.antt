-- ===== src/Tests/Stream.antt =====
-- Runs of an epoch of crates/blitz-stream: two partitions with three records and one, two to a unit.
use alpheidae.Prelude.{
  ℕ, zero, suc, ap₂, ◌%◌, ◌^◌, ◌++◌, ◌+◌, ◌≤◌, ◌<◌, max, true, none, some, List, [], ◌∷◌, length,
  ◌≡◌, ◌⊎◌, refl, sym, subst, arith,
}
use alpheidae.Stream.Sizer
use alpheidae.Stream.Sizer.{clamp, SizerConfig, size_workers, Enough, size_workers_lem}
use alpheidae.Stream.Plan.{
  Record, WorkUnit, Offsets, committed, Source, log_of, high_watermark, plan_partition, plan_work,
  Tiles, plan_from, plan_loop, plan_partition-Tiles,
}
use alpheidae.Stream.Epoch.{
  IsJoined, Thread, idle, working, ended, leave, EpochReport, Workers, raise, start_workers, pop,
  finish, Reach, here, next, run_epoch, lag_from,
}
use alpheidae.Stream.Epoch.Pool.{total, reach, joined_lem}
use alpheidae.Stream.Epoch.Finish.{run_length, threads_finish}
use alpheidae.Stream.Epoch.Drain.{by_records}
use alpheidae.Stream.Epoch.Commit.{epoch_drains, IsRunnable, Finishes}
use alpheidae.Stream.Until.{run_until_caught_up, two_epochs_catch_up}

abbrev rec : ℕ → Record
rec i = record { offset = i; key = i; value = 7 }

abbrev source : Source
source = (rec 0 ∷ rec 1 ∷ rec 2 ∷ []) ∷ (rec 0 ∷ []) ∷ []

abbrev store : Offsets
store p = none

abbrev config : SizerConfig
config = record Sizer.default { max_records_per_unit = 2 }

size_workers_lem_example :
    (n : ℕ) × (size_workers 25_000 config ≡ some n)
    × ((◌≡◌ {A = ℕ} 25_000 0) × (n ≡ 0)
        ⊎ (◌<◌ 0 25_000) × (1 ≤ n) × (n ≤ 64) × Enough 25_000 n config)
size_workers_lem_example = size_workers_lem 25_000 config (omega arith) (omega arith)

plan_partition-Tiles_example :
    (us : List WorkUnit) × (plan_partition source store 2 0 ≡ some us)
    × Tiles 0 (log_of source 0) 2 0 (high_watermark source 0) us
unfolding high_watermark
plan_partition-Tiles_example = plan_partition-Tiles source store 2 0 (omega arith) (omega arith)

-- The plan, and one schedule of two threads.
abbrev u0 : WorkUnit
u0 = record { partition = 0; start_offset = 0; end_offset = 2; records = rec 0 ∷ rec 1 ∷ [] }

abbrev u1 : WorkUnit
u1 = record { partition = 0; start_offset = 2; end_offset = 3; records = rec 2 ∷ [] }

abbrev u2 : WorkUnit
u2 = record { partition = 1; start_offset = 0; end_offset = 1; records = rec 0 ∷ [] }

abbrev units : List WorkUnit
units = u0 ∷ u1 ∷ u2 ∷ []

planned : plan_work source store 2 ≡ some units
unfolding plan_work plan_from plan_partition plan_loop
planned = refl

abbrev took : Workers → List Thread → List WorkUnit → WorkUnit → List Thread → Workers
took s before rest u after = record s { queue = rest; threads = before ++ (working u ∷ after) }

abbrev recorded : Workers → List Thread → WorkUnit → List Thread → Workers
recorded s before u after = record s {
  threads = before ++ (idle ∷ after);
  records = (s.records + by_records u) % 2 ^ 64;
  processed = (s.processed + 1) % 2 ^ 64;
  progress = raise s.progress u.partition u.end_offset;
}

-- Both threads take a unit; the later unit of partition 0 is recorded first.
abbrev busy : Workers
busy =
    took (took (start_workers 2 units store) [] (u0 ∷ u1 ∷ []) u2 (idle ∷ [])) (working u2 ∷ [])
      (u0 ∷ []) u1 []

abbrev half : Workers
half = took (recorded busy (working u2 ∷ []) u1 []) (working u2 ∷ []) [] u0 []

abbrev resting : Workers
resting = recorded (recorded half [] u2 (working u0 ∷ [])) (idle ∷ []) u0 []

abbrev over : Workers
over = record resting { threads = ended ∷ ended ∷ [] }

schedule : Reach by_records (start_workers 2 units store) over
schedule =
    let r1 = next here (pop [] (idle ∷ []) (u0 ∷ u1 ∷ []) u2 refl refl refl) in
    let r2 = next r1 (pop (working u2 ∷ []) [] (u0 ∷ []) u1 refl refl refl) in
    let r3 = next r2 (finish (working u2 ∷ []) [] u1 refl refl) in
    let r4 = next r3 (pop (working u2 ∷ []) [] [] u0 refl refl refl) in
    let r5 = next r4 (finish [] (working u0 ∷ []) u2 refl refl) in
    let r6 = next r5 (finish (idle ∷ []) [] u0 refl refl) in
    next (next r6 (leave [] (idle ∷ []) refl refl refl)) (leave (ended ∷ []) [] refl refl refl)

joined_lem_example :
    (over.records ≡ total by_records units % 2 ^ 64)
    × (over.processed ≡ 3)
    × ((q : ℕ) → over.progress q ≡ max (committed store q) (reach q units))
joined_lem_example = joined_lem 2 by_records units store (omega arith) schedule tt

threads_finish_example :
    ((t : Workers) × Reach by_records over t × IsJoined t) × (run_length by_records schedule ≤ 8)
threads_finish_example = threads_finish by_records 2 units store schedule

ready : IsRunnable source store config 2
unfolding lag_from high_watermark
ready = record {
  behind = λ p. omega arith;
  bounds = omega arith;
  allowed = omega arith;
  small_lag = omega arith;
  small_logs = small;
}
  where
    small : (p : ℕ) → high_watermark source p + 2 ≤ 2 ^ 64
    small zero = omega arith
    small (suc zero) = omega arith
    small (suc (suc p)) = omega arith

one_sized : size_workers (lag_from 2 0 source store) config ≡ some 1
unfolding size_workers clamp lag_from high_watermark
one_sized = refl

-- One worker is sized, two are local, and they do what `schedule` says.
finishes :
    (n : ℕ) (us : List WorkUnit)
    → size_workers (lag_from 2 0 source store) config ≡ some n
    → plan_work source store 2 ≡ some us
    → Finishes by_records (λ s. over) (start_workers (max n 2) us store)
finishes n us h g =
    let workers : n ≡ 1 = cc one_sized in
    let plan : us ≡ units = cc planned in
    (
      subst (λ (s : Workers). Reach by_records s over)
          (sym (ap₂ (λ (k : ℕ) vs. start_workers (max k 2) vs store) workers plan)) schedule,
      tt,
    )

epoch_drains_example :
    (after : Offsets) × (rep : EpochReport) × (run_epoch 1 source store config 2
        (λ q. true)
        (λ s. over)
      ≡ some (after, some rep))
    × (rep.records_processed ≡ lag_from 2 0 source store)
    × (rep.lag_before ≡ lag_from 2 0 source store)
    × ((p : ℕ) → p < 2 → committed after p ≡ high_watermark source p)
epoch_drains_example =
    epoch_drains 1 source store config 2 (λ q. true) (λ s. over) ready finishes (λ q. refl)

two_epochs_catch_up_example :
    (after : Offsets) × (reports : List EpochReport) × (run_until_caught_up
        (λ e. source)
        config
        2
        (λ q. true)
        (λ e s. over)
        5
        store
      ≡ some (after, some reports))
    × (length reports ≤ 2)
    × ((p : ℕ) → p < 2 → committed after p ≡ high_watermark source p)
two_epochs_catch_up_example =
    two_epochs_catch_up source store config 2 3 (λ q. true) (λ e s. over) ready finishes (λ q. refl)
