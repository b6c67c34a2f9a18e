-- ===== src/Stream/Sizer.antt =====
-- crates/blitz-stream/src/sizer.rs: how many workers an epoch gets.
use alpheidae.Prelude.{
  ℕ, ◌+◌, ◌-◌, ◌*◌, ◌/◌, ◌%◌, ◌^◌, ◌≤◌, ◌<◌, ◌≡◌, refl, max, Option, none, some, if◌then◌else◌, ltb,
  ◌==◌, arith, ◌⊎◌, inl, inr, Bool-cases,
}

pub record SizerConfig : Type 0 where
  pub records_per_worker : ℕ
  pub max_workers : ℕ
  pub min_workers : ℕ
  pub max_records_per_unit : ℕ

abbrev pub default : SizerConfig
default = record {
  records_per_worker = 10_000;
  max_workers = 64;
  min_workers = 1;
  max_records_per_unit = 4_096;
}

-- `Ord::clamp`, which panics if the bounds are out of order.
unfoldable pub clamp : ℕ → ℕ → ℕ → Option ℕ
clamp n lo hi =
    if ltb hi lo then none else if ltb n lo then some lo else if ltb hi n then some hi else some n

-- `none` is a panic of `clamp`. The sum wraps around at 64 bits; a build that checks for overflow
-- panics there.
unfoldable pub size_workers : ℕ → SizerConfig → Option ℕ
size_workers lag cfg =
    if lag == 0
    then some 0
    else let per = max cfg.records_per_worker 1 in
      clamp (((lag + per) % 2 ^ 64 + (2 ^ 64 - 1)) % 2 ^ 64 / per) cfg.min_workers cfg.max_workers

-- Enough workers for the lag stay enough when there are more.
enough : (lag per n : ℕ) → 0 < per → (lag + per - 1) / per ≤ n → lag ≤ n * per
enough lag per n pos h = grind arith

abbrev pub Enough : ℕ → ℕ → SizerConfig → Type 0
Enough lag n cfg = (n ≡ cfg.max_workers) ⊎ (lag ≤ n * max cfg.records_per_worker 1)

clamp_lem :
    (q : ℕ) (cfg : SizerConfig)
    → cfg.min_workers ≤ cfg.max_workers
    → (n : ℕ) × (clamp q cfg.min_workers cfg.max_workers ≡ some n)
      × (cfg.min_workers ≤ n)
      × (n ≤ cfg.max_workers)
      × ((n ≡ cfg.max_workers) ⊎ (q ≤ n))
unfolding clamp
clamp_lem q cfg h = elim (Bool-cases (ltb q cfg.min_workers)) [
  | inl lo ↦ (cfg.min_workers, ground arith, omega arith, h, inr (ground arith))
  | inr lo ↦ elim (Bool-cases (ltb cfg.max_workers q)) [
    | inl hi ↦ (cfg.max_workers, ground arith, h, omega arith, inl refl)
    | inr hi ↦ (q, ground arith, ground arith, ground arith, inr (omega arith))
  ]
]

-- With the bounds in order, and the lag and `records_per_worker` (at least 1) together below 2^64, there
-- is no panic. No lag gets no worker. Any lag gets a number of workers between the bounds, which is the
-- maximum or else enough for a share of `records_per_worker` each.
pub size_workers_lem :
    (lag : ℕ) (cfg : SizerConfig)
    → cfg.min_workers ≤ cfg.max_workers
    → lag + max cfg.records_per_worker 1 < 2 ^ 64
    → (n : ℕ) × (size_workers lag cfg ≡ some n)
      × ((lag ≡ 0) × (n ≡ 0)
          ⊎ (0 < lag) × (cfg.min_workers ≤ n) × (n ≤ cfg.max_workers) × Enough lag n cfg)
size_workers_lem lag cfg h fits = elim (Bool-cases (lag == 0)) [
  | inl none_left ↦ (0, unfold size_workers in rw none_left, inl (ground arith, refl))
  | inr more ↦
      let per = max cfg.records_per_worker 1 in
      let (n, e, lo, hi, big) = clamp_lem ((lag + per - 1) / per) cfg h in
      let exact : ((lag + per) % 2 ^ 64 + (2 ^ 64 - 1)) % 2 ^ 64 ≡ lag + per - 1 = omega arith in
      (
        n,
        unfold size_workers in rw (more, exact) e,
        inr (
          ground arith,
          lo,
          hi,
          elim big [ inl top ↦ inl top | inr q ↦ inr (enough lag per n (omega arith) q) ],
        ),
      )
]

-- Where there is lag, and a worker is allowed, there is one.
pub size_workers-pos :
    (lag n : ℕ) (cfg : SizerConfig) → 0 < lag → 0 < cfg.max_workers → Enough lag n cfg → 0 < n
size_workers-pos lag n cfg pos allowed (inl top) = omega arith
size_workers-pos lag n cfg pos allowed (inr q) = grind arith
