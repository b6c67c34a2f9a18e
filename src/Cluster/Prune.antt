-- ===== src/Cluster/Prune.antt =====
-- Pruning by the zone maps of crates/blitz-cluster/src/lib.rs, against a scan of all blocks.
use alpheidae.Prelude.{
  range, ℕ, zero, suc, ◌+◌, ◌≤◌, ◌≡◌, refl, sym, ap, subst, ◌∙◌, Bool, true, false, not, none, some,
  List, [], ◌∷◌, ◌++◌, length, map, get_or, keep, arith, Bool-cases, inl, inr, All,
}
use alpheidae.Core.{CmpOp, gt, lt, ge, le, eq, compares, min_i64, max_i64, i64_max, i64_min, bias}
use alpheidae.Core.Filter.{hits, filter_i64, filter_i64-hits}
use alpheidae.Cluster.{
  ZoneMap, build_loop, build, prunes, Block, build_zones, ClusteredTable, from_blocks, zone_of,
  column_of, pruned_morsels,
}

-- The value lies in the zone.
abbrev InZone : ZoneMap → ℕ → Type 0
InZone z v = (bias z.min ≤ bias v) × (bias v ≤ bias z.max)

-- A zone that holds at least what another holds.
abbrev Wider : ZoneMap → ZoneMap → Type 0
Wider y z = (bias y.min ≤ bias z.min) × (bias z.max ≤ bias y.max)

build_loop-Wider : (z : ZoneMap) (data_ : List ℕ) → Wider (build_loop z data_) z
unfolding build_loop
build_loop-Wider z [] = (omega arith, omega arith)
build_loop-Wider z (v ∷ data_) =
    let w = build_loop-Wider (record { min = min_i64 z.min v; max = max_i64 z.max v }) data_ in
    (ground (arith, w), ground (arith, w))

build_loop-InZone : (z : ZoneMap) (data_ : List ℕ) → All (InZone (build_loop z data_)) data_
unfolding build_loop
build_loop-InZone z [] = tt
build_loop-InZone z (v ∷ data_) =
    let y : ZoneMap = record { min = min_i64 z.min v; max = max_i64 z.max v } in
    let w = build_loop-Wider y data_ in
    ((ground (arith, w), ground (arith, w)), build_loop-InZone y data_)

-- A value of a pruned zone does not pass.
prunes-compares :
    (z : ZoneMap) (op : CmpOp) (lit v : ℕ)
    → prunes z op lit ≡ true
    → InZone z v
    → compares op v lit ≡ false
unfolding prunes
prunes-compares z gt lit v h (lo, hi) = ground arith
prunes-compares z lt lit v h (lo, hi) = ground arith
prunes-compares z ge lit v h (lo, hi) = ground arith
prunes-compares z le lit v h (lo, hi) = ground arith
prunes-compares z eq lit v h (lo, hi) = ground arith

no_hits :
    (z : ZoneMap) (op : CmpOp) (lit : ℕ) (data_ : List ℕ) (i : ℕ)
    → prunes z op lit ≡ true
    → All (InZone z) data_
    → hits (λ v. compares op v lit) data_ i ≡ []
unfolding hits
no_hits z op lit [] i h hs = refl
no_hits z op lit (v ∷ data_) i h (hv, hs) =
    rw (prunes-compares z op lit v h hv, no_hits z op lit data_ (i + 1) h hs)

get_or-map :
    {A B : Type 0} (f : A → B) (xs : List A) (i : ℕ) (d : A)
    → get_or (map f xs) i (f d) ≡ f (get_or xs i d)
get_or-map f [] i d = refl
get_or-map f (x ∷ xs) zero d = refl
get_or-map f (x ∷ xs) (suc i) d = get_or-map f xs i d

get_or-build_zones :
    (blocks : List Block) (b : ℕ)
    → get_or (build_zones blocks) b [] ≡ map build (get_or blocks b [])
unfolding build_zones
get_or-build_zones [] b = refl
get_or-build_zones (x ∷ blocks) zero = refl
get_or-build_zones (x ∷ blocks) (suc b) = get_or-build_zones blocks b

-- The zone of a block's column is built from that column.
zone_of-build :
    (blocks : List Block) (b col : ℕ)
    → zone_of (from_blocks blocks) b col ≡ build (column_of (from_blocks blocks) b col)
unfolding from_blocks build build_loop
zone_of-build blocks b col =
    ap (λ (zs : List ZoneMap). get_or zs col (build [])) (get_or-build_zones blocks b)
    ∙ get_or-map build (get_or blocks b []) col []

-- The rows that pass in the blocks of a list, each with its block.
unfoldable pub scan : ClusteredTable → ℕ → CmpOp → ℕ → List ℕ → List (ℕ × ℕ)
scan t col op lit [] = []
scan t col op lit (b ∷ bs) =
    map (λ r. (b, r)) (filter_i64 (column_of t b col) op lit) ++ scan t col op lit bs

pub skipped :
    (blocks : List Block) (b col : ℕ) (op : CmpOp) (lit : ℕ)
    → prunes (zone_of (from_blocks blocks) b col) op lit ≡ true
    → filter_i64 (column_of (from_blocks blocks) b col) op lit ≡ []
unfolding build
skipped blocks b col op lit h =
    let data_ = column_of (from_blocks blocks) b col in
    let e = zone_of-build blocks b col in
    filter_i64-hits data_ op lit
    ∙ no_hits (build data_) op lit data_ 0 (subst (λ z. prunes z op lit ≡ true) e h)
        (build_loop-InZone (record { min = i64_max; max = i64_min }) data_)

pub keep_in : (q : ℕ → Bool) (x : ℕ) (xs : List ℕ) → q x ≡ true → keep q (x ∷ xs) ≡ x ∷ keep q xs
keep_in q x xs h = rw (h, keep)

pub keep_out : (q : ℕ → Bool) (x : ℕ) (xs : List ℕ) → q x ≡ false → keep q (x ∷ xs) ≡ keep q xs
keep_out q x xs h = rw (h, keep)

scan-keep :
    (blocks : List Block) (col : ℕ) (op : CmpOp) (lit : ℕ) (bs : List ℕ)
    → scan
        (from_blocks blocks)
        col
        op
        lit
        (keep (λ b. not (prunes (zone_of (from_blocks blocks) b col) op lit)) bs)
      ≡ scan (from_blocks blocks) col op lit bs
unfolding scan
scan-keep blocks col op lit [] = refl
scan-keep blocks col op lit (b ∷ bs) =
    let t = from_blocks blocks in
    let found = scan t col op lit in
    let q : ℕ → Bool = λ b. not (prunes (zone_of t b col) op lit) in
    elim (Bool-cases (prunes (zone_of t b col) op lit)) [
      | inl p ↦
          ap found (keep_out q b bs (ap not p))
          ∙ scan-keep blocks col op lit bs
          ∙ ap (λ rows. map (λ r. (b, r)) rows ++ found bs) (sym (skipped blocks b col op lit p))
      | inr p ↦
          ap found (keep_in q b bs (ap not p))
          ∙ ap (λ more. map (λ r. (b, r)) (filter_i64 (column_of t b col) op lit) ++ more)
              (scan-keep blocks col op lit bs)
    ]

-- A scan of the blocks that pruning leaves finds every row that a scan of all blocks finds, in the
-- same order.
pub scan-pruned_morsels :
    (blocks : List Block) (col : ℕ) (op : CmpOp) (lit : ℕ)
    → scan
        (from_blocks blocks)
        col
        op
        lit
        (pruned_morsels (from_blocks blocks) (some (col, op, lit)))
      ≡ scan (from_blocks blocks) col op lit (pruned_morsels (from_blocks blocks) none)
unfolding pruned_morsels
scan-pruned_morsels blocks col op lit =
    scan-keep blocks col op lit (range 0 (length (from_blocks blocks).blocks))
