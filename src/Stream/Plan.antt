-- ===== src/Stream/Plan.antt =====
-- crates/blitz-stream/src/source.rs and offsets.rs: the in-memory source, and the work units of an epoch.
-- An offset store is, for the one stream of an epoch, a function of the partition.
use alpheidae.Prelude.{
  ℕ, zero, suc, ◌+◌, ◌-◌, ◌^◌, ◌≤◌, ◌<◌, ◌≡◌, refl, min, max, Option, none, some, List, [], ◌∷◌,
  ◌++◌, if◌then◌else◌, ltb, leb, ◌==◌, arith, inl, inr, Bool-cases, false, length, take, drop,
  get_or, get_elem?, set,
}

pub record Record : Type 0 where
  pub offset : ℕ
  pub key : ℕ
  pub value : ℕ

pub record WorkUnit : Type 0 where
  pub partition : ℕ
  pub start_offset : ℕ
  pub end_offset : ℕ
  pub records : List Record

abbrev pub Offsets : Type 0
Offsets = ℕ → Option ℕ

-- `offsets.get(stream, p).unwrap_or(0)`.
abbrev pub committed : Offsets → ℕ → ℕ
committed store p = elim (store p) [ none ↦ 0 | some o ↦ o ]

-- `MemoryOffsetStore::put`.
abbrev pub put : Offsets → ℕ → ℕ → Offsets
put store p offset q = if p == q then some offset else store q

-- The partitions of an `InMemorySource`.
abbrev pub Source : Type 0
Source = List (List Record)

abbrev pub log_of : Source → ℕ → List Record
log_of source p = get_or source p []

unfoldable pub high_watermark : Source → ℕ → ℕ
high_watermark source p = length (log_of source p)

-- The offset of a pushed record is its place in the log. An unknown partition is a panic.
unfoldable pub push : Source → ℕ → Record → Option Source
push source p rec = elim (get_elem? source p) [
  | none ↦ none
  | some log ↦ some (set source p (log ++ (record rec { offset = length log } ∷ [])))
]

abbrev pub slice {ℓ} : {A : Type ℓ} → List A → ℕ → ℕ → List A
slice xs start end = take (end - start) (drop start xs)

abbrev pub prepend : List WorkUnit → Option (List WorkUnit) → Option (List WorkUnit)
prepend us none = none
prepend us (some rest) = some (us ++ rest)

-- The `while start < high` loop of `plan_work`, on fuel. `none` is a panic: a sum that passes 64 bits
-- fails the check for overflow, or wraps around to an end before `start`, where the slice fails.
unfoldable pub plan_loop : ℕ → ℕ → List Record → ℕ → ℕ → Option (List WorkUnit)
plan_loop zero p log step start = some []
plan_loop (suc fuel) p log step start =
    let end = min (start + step) (length log) in
    let unit : WorkUnit = record {
      partition = p;
      start_offset = start;
      end_offset = end;
      records = slice log start end;
    } in
    let rest = plan_loop fuel p log step end in
    if ltb start (length log)
    then (if leb (2 ^ 64) (start + step) then none else prepend (unit ∷ []) rest)
    else some []

unfoldable pub plan_partition : Source → Offsets → ℕ → ℕ → Option (List WorkUnit)
plan_partition source store max_per_unit p =
    let log = log_of source p in
    plan_loop (length log) p log (max max_per_unit 1) (committed store p)

-- The partitions from `p` on, `n` of them.
unfoldable pub plan_from : ℕ → ℕ → Source → Offsets → ℕ → Option (List WorkUnit)
plan_from zero p source store max_per_unit = some []
plan_from (suc n) p source store max_per_unit =
    let rest = plan_from n (p + 1) source store max_per_unit in
    elim (plan_partition source store max_per_unit p) [
      | none ↦ none
      | some units ↦ prepend units rest
    ]

unfoldable pub plan_work : Source → Offsets → ℕ → Option (List WorkUnit)
plan_work source store max_per_unit = plan_from (length source) 0 source store max_per_unit

-- The units stand end to end from one offset to another, each with its records, at least one and at
-- most `step` of them.
abbrev pub Tiles : ℕ → List Record → ℕ → ℕ → ℕ → List WorkUnit → Type 0
Tiles p log step start end [] = start ≡ end
Tiles p log step start end (u ∷ us) =
    (u.partition ≡ p)
    × (u.start_offset ≡ start)
    × (start < u.end_offset)
    × (u.end_offset ≤ start + step)
    × (u.records ≡ slice log start u.end_offset)
    × Tiles p log step u.end_offset end us

plan_loop-Tiles :
    (fuel p : ℕ) (log : List Record) (step start : ℕ)
    → 0 < step
    → start ≤ length log
    → length log - start ≤ fuel
    → length log + step ≤ 2 ^ 64
    → (us : List WorkUnit) × (plan_loop fuel p log step start ≡ some us)
      × Tiles p log step start (length log) us
unfolding plan_loop
plan_loop-Tiles zero p log step start pos le enough fits = ([], refl, omega arith)
plan_loop-Tiles (suc fuel) p log step start pos le enough fits =
    elim (Bool-cases (ltb start (length log))) [
      | inl more ↦
          let end = min (start + step) (length log) in
          let no_wrap : leb (2 ^ 64) (start + step) ≡ false = ground arith in
          let (us, e, tiles) =
            plan_loop-Tiles fuel p log step end pos (omega arith) (ground arith) fits in
          (
            record {
              partition = p;
              start_offset = start;
              end_offset = end;
              records = slice log start end;
            }
                ∷ us,
            rw (more, no_wrap, e),
            (refl, refl, ground arith, omega arith, refl, tiles),
          )
      | inr done ↦ ([], rw done, ground arith)
    ]

-- The work that is planned for a partition goes end to end from the committed offset to the end of the
-- log, without a gap and without an overlap, in units of at least one and at most `max_per_unit`
-- records (one, if that is 0), and the planning does not panic, provided that no more is committed
-- than the log holds and that the end of the log and `max_per_unit` (or 1) add up to at most 2^64.
pub plan_partition-Tiles :
    (source : Source) (store : Offsets) (max_per_unit p : ℕ)
    → committed store p ≤ high_watermark source p
    → high_watermark source p + max max_per_unit 1 ≤ 2 ^ 64
    → (us : List WorkUnit) × (plan_partition source store max_per_unit p ≡ some us)
      × Tiles p
          (log_of source p)
          (max max_per_unit 1)
          (committed store p)
          (high_watermark source p)
          us
unfolding plan_partition high_watermark
plan_partition-Tiles source store max_per_unit p h fits =
    let log = log_of source p in
    plan_loop-Tiles (length log) p log (max max_per_unit 1) (committed store p) (omega arith) h
      (omega arith) fits
