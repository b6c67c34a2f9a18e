-- ===== src/Stream/Epoch/Drain.antt =====
-- The plan of an epoch of crates/blitz-stream over the in-memory source: how much, and how far.
use alpheidae.Prelude.{
  ℕ, zero, suc, ◌+◌, ◌-◌, ◌<◌, ◌≤◌, ◌≡◌, ◌≢◌, refl, ap, max, List, [], ◌∷◌, ◌==◌, length, arith,
  length-take, length-drop, drop, inl, inr, Bool-cases,
}
use alpheidae.Prelude.{◌^◌, some, ◌++◌, suc}
use alpheidae.Stream.Plan.{
  plan_loop, Record, WorkUnit, Offsets, Source, committed, high_watermark, log_of, slice, plan_from,
  plan_partition, plan_partition-Tiles, Tiles,
}
use alpheidae.Stream.Epoch.{lag_from}
use alpheidae.Stream.Epoch.Pool.{total, reach, total-append, reach-append}

-- A work unit counts for its records.
abbrev pub by_records : WorkUnit → ℕ
by_records u = length u.records

length-slice : (log : List Record) (a b : ℕ) → b ≤ length log → length (slice log a b) ≡ b - a
length-slice log a b h = omega (arith, length-take (b - a) (drop a log), length-drop a log)

Tiles-le :
    (p : ℕ) (log : List Record) (step start end : ℕ) (us : List WorkUnit)
    → Tiles p log step start end us
    → start ≤ end
Tiles-le p log step start end [] h = omega arith
Tiles-le p log step start end (u ∷ us) (a, b, lt, c, d, h) =
    omega (arith, Tiles-le p log step u.end_offset end us h)

Tiles-total :
    (p : ℕ) (log : List Record) (step start end : ℕ) (us : List WorkUnit)
    → Tiles p log step start end us
    → end ≤ length log
    → total by_records us ≡ end - start
Tiles-total p log step start end [] h le = omega arith
Tiles-total p log step start end (u ∷ us) (a, b, lt, c, d, h) le =
    let up = Tiles-le p log step u.end_offset end us h in
    omega (
      arith,
      ap length d,
      length-slice log start u.end_offset (omega arith),
      Tiles-total p log step u.end_offset end us h le,
    )

Tiles-reach :
    (p : ℕ) (log : List Record) (step start end : ℕ) (us : List WorkUnit)
    → Tiles p log step start end us
    → max start (reach p us) ≡ end
Tiles-reach p log step start end [] h = omega arith
Tiles-reach p log step start end (u ∷ us) (a, b, lt, c, d, h) =
    ground (
      arith,
      Tiles-le p log step u.end_offset end us h,
      Tiles-reach p log step u.end_offset end us h,
    )

Tiles-reach_other :
    (p q : ℕ) (log : List Record) (step start end : ℕ) (us : List WorkUnit)
    → p ≢ q
    → Tiles p log step start end us
    → reach q us ≡ 0
Tiles-reach_other p q log step start end [] ne h = refl
Tiles-reach_other p q log step start end (u ∷ us) ne (a, b, lt, c, d, h) =
    ground (arith, Tiles-reach_other p q log step u.end_offset end us ne h)

-- What the plan of the partitions from `p` on, `n` of them, comes to.
pub record IsPlan (n p : ℕ) (source : Source) (store : Offsets) (us : List WorkUnit) : Type 0 where
  pub all : total by_records us ≡ lag_from n p source store
  pub below : (q : ℕ) → q < p → reach q us ≡ 0
  pub far :
      (q : ℕ) → p ≤ q → q < p + n → max (committed store q) (reach q us) ≡ high_watermark source q

module _ (source : Source) (store : Offsets) (step : ℕ)
    (behind : (p : ℕ) → committed store p ≤ high_watermark source p)
    (fits : (p : ℕ) → high_watermark source p + max step 1 ≤ 2 ^ 64) where
  IsPlan-next :
      (n p : ℕ) (here later : List WorkUnit)
      → Tiles p (log_of source p) (max step 1) (committed store p) (high_watermark source p) here
      → IsPlan n (p + 1) source store later
      → IsPlan (suc n) p source store (here ++ later)
  unfolding lag_from
  IsPlan-next n p here later tiles w =
      let log = log_of source p in
      let low = committed store p in
      let high = high_watermark source p in
      record {
        all = omega (
          arith,
          total-append by_records here later,
          Tiles-total p log (max step 1) low high here tiles (unfold high_watermark in omega arith),
          w.all,
        );
        below = λ q lt. omega (
          arith,
          reach-append q here later,
          Tiles-reach_other p q log (max step 1) low high here (omega arith) tiles,
          w.below q (omega arith),
        );
        far = λ q lo hi. elim (Bool-cases (p == q)) [
          | inl is_here ↦
              let e : p ≡ q = ground arith in
              omega (
                arith,
                reach-append q here later,
                e,
                ap (committed store) e,
                ap (high_watermark source) e,
                ap (λ r. reach r here) e,
                Tiles-reach p log (max step 1) low high here tiles,
                w.below q (omega arith),
              )
          | inr is_later ↦
              let ne : p ≢ q = ground arith in
              omega (
                arith,
                reach-append q here later,
                Tiles-reach_other p q log (max step 1) low high here ne tiles,
                w.far q (omega arith) (omega arith),
              )
        ];
      }

  pub plan_from-IsPlan :
      (n p : ℕ)
      → (us : List WorkUnit) × (plan_from n p source store step ≡ some us)
        × IsPlan n p source store us
  unfolding plan_from lag_from
  plan_from-IsPlan zero p =
      ([], refl, record { all = refl; below = λ q lt. refl; far = λ q lo hi. absurd (omega arith) })
  plan_from-IsPlan (suc n) p =
      let (here, e, tiles) = plan_partition-Tiles source store step p (behind p) (fits p) in
      let (later, f, w) = plan_from-IsPlan n (p + 1) in
      (here ++ later, rw (e, f, plan_from), IsPlan-next n p here later tiles w)

-- Where there is no lag, all is committed.
lag_from-none :
    (n p : ℕ) (source : Source) (store : Offsets)
    → lag_from n p source store ≡ 0
    → (q : ℕ) → p ≤ q
    → q < p + n
    → high_watermark source q ≤ committed store q
unfolding lag_from
lag_from-none zero p source store h q lo hi = absurd (omega arith)
lag_from-none (suc n) p source store h q lo hi = elim (Bool-cases (p == q)) [
  | inl is_here ↦
      let e : p ≡ q = ground arith in
      omega (arith, h, ap (committed store) e, ap (high_watermark source) e)
  | inr is_later ↦ lag_from-none n (p + 1) source store (omega arith) q (ground arith) (omega arith)
]

-- Nothing is planned from the end of a log on.
plan_loop-end :
    (fuel p : ℕ) (log : List Record) (step start : ℕ)
    → length log ≤ start
    → plan_loop fuel p log step start ≡ some []
unfolding plan_loop
plan_loop-end zero p log step start h = refl
plan_loop-end (suc fuel) p log step start h = ground arith

pub plan_from-end :
    (n p : ℕ) (source : Source) (store : Offsets) (step : ℕ)
    → ((q : ℕ) → p ≤ q → q < p + n → high_watermark source q ≤ committed store q)
    → plan_from n p source store step ≡ some []
unfolding plan_from
plan_from-end zero p source store step h = refl
plan_from-end (suc n) p source store step h =
    let log = log_of source p in
    let here : plan_partition source store step p ≡ some [] =
      unfold plan_partition high_watermark in
      plan_loop-end (length log) p log (max step 1) (committed store p)
        (h p (omega arith) (omega arith)) in
    let others =
      plan_from-end n (p + 1) source store step (λ q lo hi. h q (omega arith) (omega arith)) in
    rw (here, others, plan_from)

-- Where there is no lag, nothing is planned.
pub plan_from-no_lag :
    (n : ℕ) (source : Source) (store : Offsets) (step : ℕ)
    → lag_from n 0 source store ≡ 0
    → plan_from n 0 source store step ≡ some []
plan_from-no_lag n source store step h =
    plan_from-end n 0 source store step (lag_from-none n 0 source store h)
