-- ===== src/Cluster.antt =====
-- crates/blitz-cluster/src/lib.rs: zone maps, and the blocks that a scan is left with. A column is a
-- list of i64s, as `as_i64` gives it; another kind of column is a panic there. The order along the
-- Z-order curve and the choice of its keys are not modelled.
pub mod Prune
pub mod Rebuild
use mathlib.Core.List.{foldl}
use alpheidae.Prelude.{
  ℕ, zero, suc, ◌+◌, Bool, true, false, ◌||◌, not, Option, none, some, List, [], ◌∷◌, if◌then◌else◌,
  length, map, range, get_or, keep, leb, ltb, take, ◌==◌,
}
use alpheidae.Core.{CmpOp, gt, lt, ge, le, eq, lt_i64, le_i64, min_i64, max_i64, i64_max, i64_min}

pub record ZoneMap : Type 0 where
  pub min : ℕ
  pub max : ℕ

-- One pass over the values.
unfoldable pub build_loop : ZoneMap → List ℕ → ZoneMap
build_loop z [] = z
build_loop z (v ∷ data_) =
    build_loop (record { min = min_i64 z.min v; max = max_i64 z.max v }) data_

unfoldable pub build : List ℕ → ZoneMap
unfolding build_loop
build data_ = build_loop (record { min = i64_max; max = i64_min }) data_

unfoldable pub prunes : ZoneMap → CmpOp → ℕ → Bool
prunes z gt lit = le_i64 z.max lit
prunes z ge lit = lt_i64 z.max lit
prunes z lt lit = le_i64 lit z.min
prunes z le lit = lt_i64 lit z.min
prunes z eq lit = lt_i64 lit z.min || lt_i64 z.max lit

-- A block is its columns.
abbrev pub Block : Type 0
Block = List (List ℕ)

unfoldable pub build_zones : List Block → List (List ZoneMap)
build_zones [] = []
build_zones (b ∷ blocks) = map build b ∷ build_zones blocks

pub record ClusteredTable : Type 0 where
  pub blocks : List Block
  pub zones : List (List ZoneMap)
  pub cluster_keys : List ℕ

unfoldable pub from_blocks : List Block → ClusteredTable
from_blocks blocks = record { blocks = blocks; zones = build_zones blocks; cluster_keys = [] }

-- `zones[b][col]`. Past the end, which is a panic there, it is the zone of a block without rows.
abbrev pub zone_of : ClusteredTable → ℕ → ℕ → ZoneMap
zone_of t b col = get_or (get_or t.zones b []) col (record { min = i64_max; max = i64_min })

abbrev pub column_of : ClusteredTable → ℕ → ℕ → List ℕ
column_of t b col = get_or (get_or t.blocks b []) col []

unfoldable pub pruned_morsels : ClusteredTable → Option (ℕ × CmpOp × ℕ) → List ℕ
pruned_morsels t none = range 0 (length t.blocks)
pruned_morsels t (some (col, op, lit)) =
    keep (λ b. not (prunes (zone_of t b col) op lit)) (range 0 (length t.blocks))
