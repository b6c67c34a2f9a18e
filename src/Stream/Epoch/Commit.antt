-- ===== src/Stream/Epoch/Commit.antt =====
-- The commit of an epoch of crates/blitz-stream, and an epoch over the in-memory source.
use alpheidae.Prelude.{
  ℕ, zero, suc, ◌+◌, ◌<◌, ◌≤◌, ◌≡◌, ◌≢◌, refl, ap, ◌∙◌, Bool, true, max, some, List, [], ◌∷◌, ◌++◌,
  if◌then◌else◌, ltb, ◌==◌, length, arith, ◌⊎◌, inl, inr, Bool-cases,
}
use alpheidae.Prelude.{◌^◌, sym, none}
use alpheidae.Stream.Sizer.{SizerConfig, size_workers, size_workers_lem, size_workers-pos, Enough}
use alpheidae.Stream.Plan.{
  WorkUnit, Offsets, Source, committed, put, high_watermark, plan_work, plan_from,
}
use alpheidae.Stream.Epoch.{
  epoch_sized, offsets_from, EpochReport, Workers, start_workers, Reach, IsJoined, lag_from,
  commit_loop, report, run_epoch,
}
use alpheidae.Stream.Epoch.Pool.{total, reach, joined_lem}
use alpheidae.Stream.Epoch.Drain.{by_records, plan_from-IsPlan, plan_from-no_lag}

-- The commit of one partition.
stored : (ℕ → ℕ) → Offsets → ℕ → Offsets
stored prog store p = if ltb (committed store p) (prog p) then put store p (prog p) else store

stored_self :
    (prog : ℕ → ℕ) (store : Offsets) (p : ℕ)
    → committed (stored prog store p) p ≡ max (committed store p) (prog p)
unfolding stored
stored_self prog store p = ground arith

stored_other :
    (prog : ℕ → ℕ) (store : Offsets) (p q : ℕ)
    → p ≢ q
    → committed (stored prog store p) q ≡ committed store q
unfolding stored
stored_other prog store p q h = ground arith

-- Where the store takes every put, the loop ends well, and the offset of each of its partitions is the
-- later of the committed one and the progress.
commit_loop_lem :
    (n p : ℕ) (accepts : ℕ → Bool) (prog : ℕ → ℕ) (store : Offsets) (out : List (ℕ × ℕ))
    → ((q : ℕ) → accepts q ≡ true)
    → (os : List (ℕ × ℕ)) × ((commit_loop n p accepts prog store out).1 ≡ some os)
      × ((q : ℕ)
          → p ≤ q
          → q < p + n
          → committed (commit_loop n p accepts prog store out).0 q
            ≡ max (committed store q) (prog q))
      × ((q : ℕ)
          → q < p
          → committed (commit_loop n p accepts prog store out).0 q ≡ committed store q)
unfolding commit_loop stored
commit_loop_lem zero p accepts prog store out ok =
    (out, refl, λ q lo hi. absurd (omega arith), λ q lt. refl)
commit_loop_lem (suc n) p accepts prog store out ok =
    let s = stored prog store p in
    let (os, e, mid, low) =
      commit_loop_lem n (p + 1) accepts prog s (out ++ ((p, committed s p) ∷ [])) ok in
    let skip : commit_loop (suc n) p accepts prog store out
        ≡ commit_loop n (p + 1) accepts prog s (out ++ ((p, committed s p) ∷ [])) =
      ground (arith, ok p) in
    (
      os,
      ap (λ r. r.1) skip ∙ e,
      λ q lo hi. ap (λ r. committed r.0 q) skip ∙ elim (Bool-cases (p == q)) [
        | inl here ↦
            let same : p ≡ q = ground arith in
            rw (← same) (low p (omega arith) ∙ stored_self prog store p)
        | inr later ↦
            mid q (ground arith) (ground arith)
            ∙ ap (λ c. max c (prog q)) (stored_other prog store p q (ground arith))
      ],
      λ q lt.
          ap (λ r. committed r.0 q) skip
          ∙ low q (omega arith)
          ∙ stored_other prog store p q (omega arith),
    )

no_units : (us : List WorkUnit) → (length us == 0) ≡ true → us ≡ []
no_units [] h = refl
no_units (u ∷ us) h = ground arith

-- The threads' part of an epoch: from the state that they start in they come, by steps, to one in which
-- they have all ended.
abbrev pub Finishes : (WorkUnit → ℕ) → (Workers → Workers) → Workers → Type 0
Finishes process pool s = Reach process s (pool s) × IsJoined (pool s)

pub run_epoch_sized :
    (epoch_id : ℕ) (source : Source) (store : Offsets) (sizer : SizerConfig) (n_local : ℕ)
    (accepts : ℕ → Bool) (pool : Workers → Workers) (sized : ℕ) (units : List WorkUnit)
    → size_workers (lag_from (length source) 0 source store) sizer ≡ some sized
    → plan_from (length source) 0 source store sizer.max_records_per_unit ≡ some units
    → run_epoch epoch_id source store sizer n_local accepts pool
      ≡ some (
          epoch_sized epoch_id source store units
            (lag_from (length source) 0 source store)
            (max sized n_local)
            accepts
            pool)
unfolding run_epoch plan_work
run_epoch_sized epoch_id source store sizer n_local accepts pool sized units h g =
    rw (h, g, run_epoch, plan_work)

-- An epoch whose puts are taken ends well: with nothing planned it changes nothing, and else it
-- counts the joined records and moves every offset to the progress, where that is later.
epoch_sized_cases :
    (epoch_id : ℕ) (source : Source) (store : Offsets) (units : List WorkUnit) (lag workers : ℕ)
    (accepts : ℕ → Bool) (pool : Workers → Workers)
    → ((q : ℕ) → accepts q ≡ true)
    → let joined = pool (start_workers workers units store) in
      (after : Offsets) × (rep : EpochReport) × (epoch_sized epoch_id source store units lag workers
          accepts pool
        ≡ (after, some rep))
      × (rep.lag_before ≡ lag)
      × ((units ≡ []) × (after ≡ store) × (rep.records_processed ≡ 0)
          ⊎ (0 < length units)
            × (rep.records_processed ≡ joined.records)
            × ((p : ℕ)
                → p < length source
                → committed after p ≡ max (committed store p) (joined.progress p)))
unfolding report epoch_sized
epoch_sized_cases epoch_id source store units lag workers accepts pool ok =
    let n = length source in
    elim (Bool-cases (length units == 0)) [
      | inl z ↦ (
        store,
        report epoch_id lag workers 0 0 (offsets_from n 0 store),
        rw (z, epoch_sized),
        refl,
        inl (no_units units z, refl, refl),
      )
      | inr z ↦
          let joined = pool (start_workers workers units store) in
          let (os, e, mid, _) = commit_loop_lem n 0 accepts joined.progress store [] ok in
          (
            (commit_loop n 0 accepts joined.progress store []).0,
            report epoch_id lag workers (length units) joined.records os,
            rw (z, e, epoch_sized),
            refl,
            inr (ground arith, refl, λ p lt. mid p (omega arith) (omega arith)),
          )
    ]

-- What makes an epoch over the in-memory source one that can take it all: nothing beyond the logs is
-- committed, the bounds of the sizer are in order, some worker is allowed, and no sum passes 64 bits.
pub record IsRunnable (source : Source) (store : Offsets) (sizer : SizerConfig) (n_local : ℕ)
    : Type 0 where
  pub behind : (p : ℕ) → committed store p ≤ high_watermark source p
  pub bounds : sizer.min_workers ≤ sizer.max_workers
  pub allowed : 0 < max sizer.max_workers n_local
  pub small_lag : lag_from (length source) 0 source store + max sizer.records_per_worker 1 < 2 ^ 64
  pub small_logs : (p : ℕ) → high_watermark source p + max sizer.max_records_per_unit 1 ≤ 2 ^ 64

-- When something is planned, there is a worker.
some_worker :
    (source : Source) (store : Offsets) (sizer : SizerConfig) (n_local sized : ℕ)
    → 0 < max sizer.max_workers n_local
    → 0 < lag_from (length source) 0 source store
    → Enough (lag_from (length source) 0 source store) sized sizer
    → 0 < max sized n_local
some_worker source store sizer n_local sized allowed pos big =
    elim (Bool-cases (ltb 0 sizer.max_workers)) [
      | inl remote ↦
          let lag = lag_from (length source) 0 source store in
          omega (arith, size_workers-pos lag sized sizer pos (ground arith) big)
      | inr only_local ↦ ground arith
    ]

planned-lag :
    (n : ℕ) (source : Source) (store : Offsets) (step : ℕ) (us : List WorkUnit)
    → plan_from n 0 source store step ≡ some us
    → 0 < length us
    → 0 < lag_from n 0 source store
planned-lag n source store step us e some_unit =
    elim (Bool-cases (lag_from n 0 source store == 0)) [
      | inl none_left ↦
          let nil : some [] ≡ some us =
            sym (plan_from-no_lag n source store step (ground arith)) ∙ e in
          absurd (omega (arith, ap {B = ℕ} (λ o. elim o [ none ↦ 0 | some vs ↦ length vs ]) nil))
      | inr more ↦ ground arith
    ]

-- One epoch takes it all. The source is the in-memory one, nothing beyond its logs is committed, the
-- sizer's bounds are in order and it or `n_local` allows a worker, no sum passes 64 bits, the threads
-- that are started end in some schedule, a unit counts for its records, and the store takes every
-- put. Then the epoch ends well, with as many records processed as there was lag, and afterwards the
-- committed offset of each partition is the end of its log.
pub epoch_drains :
    (epoch_id : ℕ) (source : Source) (store : Offsets) (sizer : SizerConfig) (n_local : ℕ)
    (accepts : ℕ → Bool) (pool : Workers → Workers)
    → IsRunnable source store sizer n_local
    → ((n : ℕ) (us : List WorkUnit)
        → size_workers (lag_from (length source) 0 source store) sizer ≡ some n
        → plan_work source store sizer.max_records_per_unit ≡ some us
        → Finishes by_records pool (start_workers (max n n_local) us store))
    → ((q : ℕ) → accepts q ≡ true)
    → (after : Offsets) × (rep : EpochReport) × (run_epoch epoch_id source store sizer n_local
          accepts pool
        ≡ some (after, some rep))
      × (rep.records_processed ≡ lag_from (length source) 0 source store)
      × (rep.lag_before ≡ lag_from (length source) 0 source store)
      × ((p : ℕ) → p < length source → committed after p ≡ high_watermark source p)
unfolding plan_work
epoch_drains epoch_id source store sizer n_local accepts pool ready finishes ok =
    let n = length source in
    let step = sizer.max_records_per_unit in
    let lag = lag_from n 0 source store in
    let (sized, se, size) = size_workers_lem lag sizer ready.bounds ready.small_lag in
    let (units, pe, plan) = plan_from-IsPlan source store step ready.behind ready.small_logs n 0 in
    let (after, rep, e, lag_is, cases) =
      epoch_sized_cases epoch_id source store units lag (max sized n_local) accepts pool ok in
    let (r, all_ended) = finishes sized units se pe in
    let lag_pos : 0 < length units → 0 < lag =
      λ some_unit. planned-lag n source store step units pe some_unit in
    let pos : 0 < lag → 0 < max sized n_local = λ more. elim size [
      | inl (none_left, _) ↦ absurd (omega arith)
      | inr (_, _, _, big) ↦ some_worker source store sizer n_local sized ready.allowed more big
    ] in
    let whole = λ (more : 0 < lag).
      joined_lem (max sized n_local) by_records units store (pos more) r all_ended in
    (
      after,
      rep,
      run_epoch_sized epoch_id source store sizer n_local accepts pool sized units se pe
          ∙ ap some e,
      elim cases [
        | inl (nil, same, zero_records) ↦
            omega (arith, zero_records, plan.all, ap (total by_records) nil)
        | inr (some_unit, records_are, moved) ↦
            omega (arith, records_are, (whole (lag_pos some_unit)).0, plan.all, ready.small_lag)
      ],
      lag_is,
      λ p lt. elim cases [
        | inl (nil, same, zero_records) ↦ omega (
          arith,
          ap (λ s. committed s p) same,
          plan.far p (omega arith) (omega arith),
          ap (reach p) nil,
        )
        | inr (some_unit, records_are, moved) ↦ omega (
          arith,
          moved p lt,
          (whole (lag_pos some_unit)).2 p,
          plan.far p (omega arith) (omega arith),
        )
      ],
    )
