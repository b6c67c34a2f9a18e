-- ===== src/Stream/Until.antt =====
-- `run_until_caught_up` of crates/blitz-stream/src/lib.rs. The source may grow, so it is an argument for
-- each epoch, like what the threads of the epoch make of the state that they start in.
use alpheidae.Prelude.{
  ℕ, zero, suc, ◌+◌, ◌^◌, ◌<◌, ◌≤◌, ◌≡◌, refl, ap, ◌∙◌, Bool, true, false, Option, none, some, List,
  [], ◌∷◌, ◌++◌, ◌==◌, length, max, arith, Bool-cases, inl, inr,
}
use alpheidae.Stream.Sizer.{SizerConfig, size_workers, size_workers_lem}
use alpheidae.Stream.Plan.{WorkUnit, Offsets, Source, committed, high_watermark, plan_work}
use alpheidae.Stream.Epoch.{
  EpochReport, Workers, start_workers, lag_from, epoch_sized, report, run_epoch, offsets_from,
}
use alpheidae.Stream.Epoch.Drain.{by_records, plan_from-end}
use alpheidae.Stream.Epoch.Commit.{epoch_drains, run_epoch_sized, IsRunnable, Finishes}

module _ (source : ℕ → Source) (sizer : SizerConfig) (n_local : ℕ) (accepts : ℕ → Bool)
    (pool : ℕ → Workers → Workers) where
  -- The epochs from `epoch_id` on, as many as are left. `none` is a panic, and `none` in the second
  -- place an `Err`.
  unfoldable pub epochs :
      ℕ → ℕ → Offsets → List EpochReport → Option (Offsets × Option (List EpochReport))
  epochs zero epoch_id store reports = some (store, some reports)
  epochs (suc left) epoch_id store reports =
      elim (run_epoch epoch_id (source epoch_id) store sizer n_local accepts (pool epoch_id)) [
        | none ↦ none
        | some (after, none) ↦ some (after, none)
        | some (after, some rep) ↦ elim (rep.units_total == 0) [
          | true ↦ some (after, some (reports ++ (rep ∷ [])))
          | false ↦ epochs left (epoch_id + 1) after (reports ++ (rep ∷ []))
        ]
      ]

  unfoldable pub run_until_caught_up : ℕ → Offsets → Option (Offsets × Option (List EpochReport))
  unfolding epochs
  run_until_caught_up max_epochs store = epochs max_epochs 1 store []

  -- An epoch without units is the last one, and one with units has a successor.
  last_epoch :
      (left epoch_id : ℕ) (store after : Offsets) (reports : List EpochReport) (rep : EpochReport)
      → run_epoch epoch_id (source epoch_id) store sizer n_local accepts (pool epoch_id)
        ≡ some (after, some rep)
      → (rep.units_total == 0) ≡ true
      → epochs (suc left) epoch_id store reports ≡ some (after, some (reports ++ (rep ∷ [])))
  unfolding epochs
  last_epoch left epoch_id store after reports rep e z = rw (e, z, epochs)

  next_epoch :
      (left epoch_id : ℕ) (store after : Offsets) (reports : List EpochReport) (rep : EpochReport)
      → run_epoch epoch_id (source epoch_id) store sizer n_local accepts (pool epoch_id)
        ≡ some (after, some rep)
      → (rep.units_total == 0) ≡ false
      → epochs (suc left) epoch_id store reports
        ≡ epochs left (epoch_id + 1) after (reports ++ (rep ∷ []))
  unfolding epochs
  next_epoch left epoch_id store after reports rep e z = rw (e, z, epochs)

-- An epoch over a source of which all is committed has no units and changes no offset.
caught_up_epoch :
    (epoch_id : ℕ) (source : Source) (store : Offsets) (sizer : SizerConfig) (n_local : ℕ)
    (accepts : ℕ → Bool) (pool : Workers → Workers)
    → ((p : ℕ) → p < length source → committed store p ≡ high_watermark source p)
    → sizer.min_workers ≤ sizer.max_workers
    → lag_from (length source) 0 source store + max sizer.records_per_worker 1 < 2 ^ 64
    → (rep : EpochReport) × (run_epoch epoch_id source store sizer n_local accepts pool
        ≡ some (store, some rep))
      × (rep.units_total ≡ 0)
unfolding epoch_sized report
caught_up_epoch epoch_id source store sizer n_local accepts pool h bounds small_lag =
    let lag = lag_from (length source) 0 source store in
    let (sized, se, _) = size_workers_lem lag sizer bounds small_lag in
    (
      report epoch_id lag (max sized n_local) 0 0 (offsets_from (length source) 0 store),
      run_epoch_sized epoch_id source store sizer n_local accepts pool sized [] se (
          plan_from-end (length source) 0 source store sizer.max_records_per_unit
            (λ q lo hi. omega (arith, h q (omega arith)))),
      refl,
    )

-- There is no lag where all is committed.
no_lag :
    (n p : ℕ) (source : Source) (store : Offsets)
    → ((q : ℕ) → q < p + n → committed store q ≡ high_watermark source q)
    → lag_from n p source store ≡ 0
unfolding lag_from
no_lag zero p source store h = refl
no_lag (suc n) p source store h =
    omega (arith, h p (omega arith), no_lag n (p + 1) source store (λ q lt. h q (omega arith)))

-- Two epochs are enough. The source is the in-memory one and does not grow, nothing beyond its logs is
-- committed, the sizer's bounds are in order and it or `n_local` allows a worker, no sum passes 64
-- bits, the threads of the first epoch end in some schedule, a unit counts for its records, and the
-- store takes every put. Then a run of at least two epochs ends well after at most two, and the
-- committed offset of each partition is the end of its log.
pub two_epochs_catch_up :
    (source : Source) (store : Offsets) (sizer : SizerConfig) (n_local more : ℕ)
    (accepts : ℕ → Bool) (pool : ℕ → Workers → Workers)
    → IsRunnable source store sizer n_local
    → ((n : ℕ) (us : List WorkUnit)
        → size_workers (lag_from (length source) 0 source store) sizer ≡ some n
        → plan_work source store sizer.max_records_per_unit ≡ some us
        → Finishes by_records (pool 1) (start_workers (max n n_local) us store))
    → ((q : ℕ) → accepts q ≡ true)
    → (after : Offsets) × (reports : List EpochReport) × (run_until_caught_up
          (λ e. source)
          sizer
          n_local
          accepts
          pool
          (2 + more)
          store
        ≡ some (after, some reports))
      × (length reports ≤ 2)
      × ((p : ℕ) → p < length source → committed after p ≡ high_watermark source p)
unfolding run_until_caught_up
two_epochs_catch_up source store sizer n_local more accepts pool ready finishes ok =
    let (after, rep, e, _, _, drained) =
      epoch_drains 1 source store sizer n_local accepts (pool 1) ready finishes ok in
    let (rep2, e2, none_left) =
      caught_up_epoch 2 source after sizer n_local accepts (pool 2) drained ready.bounds (
        omega (
          arith,
          no_lag (length source) 0 source after (λ q lt. drained q (omega arith)),
          ready.small_lag,
        )) in
    let fuel : 2 + more ≡ suc (suc more) = omega arith in
    let start = ap (λ (n : ℕ). epochs (λ e. source) sizer n_local accepts pool n 1 store []) fuel in
    elim (Bool-cases (rep.units_total == 0)) [
      | inl z ↦ (
        after,
        rep ∷ [],
        start
            ∙ last_epoch (λ e. source) sizer n_local accepts pool (suc more) 1 store after [] rep e
                z,
        omega arith,
        drained,
      )
      | inr z ↦ (
        after,
        rep ∷ rep2 ∷ [],
        start
            ∙ next_epoch (λ e. source) sizer n_local accepts pool (suc more) 1 store after [] rep e
                z
            ∙ last_epoch (λ e. source) sizer n_local accepts pool more 2 after after (rep ∷ []) rep2
                e2 (ground arith),
        omega arith,
        drained,
      )
    ]
