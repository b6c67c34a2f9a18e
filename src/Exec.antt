-- ===== src/Exec.antt =====
-- crates/blitz-exec/src/lib.rs: partial results, and the pipeline that one morsel goes through. A block is
-- a list of i64 columns, as in crates/blitz-cluster; the branches for columns of other kinds are not
-- modelled. A column past the end is a panic there: `exchange` of Exec/Ship says so,
-- and what `column` has for it stands for no value.
pub mod Algebra
pub mod Answers
pub mod Morsel
pub mod Bags
pub mod Ramp
pub mod Wire
pub mod Ship
pub mod Resolve
use alpheidae.Prelude.{ℕ, Option, none, some, List, [], ◌∷◌, get_or}
use alpheidae.Core.{CmpOp}
use alpheidae.Core.Agg.{Acc, default, sum_i64, sum_i64_sel}
use alpheidae.Core.Agg
use alpheidae.Core.Filter.{filter_i64}
use alpheidae.Core.Groups.{Groups, upsert}
use alpheidae.Core.Group.{group_agg}
use alpheidae.Cluster.{Block}
use alpheidae.Sql.{Clauses}

pub record Partial : Type 0 where
  pub scalar : Acc
  pub groups : Groups

abbrev pub nothing : Partial
nothing = record { scalar = default; groups = [] }

-- `entry(k).or_default().merge(&a)` for each entry of the other.
unfoldable pub merge_groups : Groups → Groups → Groups
merge_groups g [] = g
merge_groups g ((k, a) ∷ o) = merge_groups (upsert g k (λ b. Agg.merge b a)) o

unfoldable pub merge : Partial → Partial → Partial
unfolding merge_groups
merge p o = record { scalar = Agg.merge p.scalar o.scalar; groups = merge_groups p.groups o.groups }

abbrev pub column : Block → ℕ → List ℕ
column b c = get_or b c []

-- The filter's selection, without a filter `None`.
abbrev pub selection : Block → Option (ℕ × CmpOp × ℕ) → Option (List ℕ)
selection b none = none
selection b (some (c, op, lit)) = some (filter_i64 (column b c) op lit)

abbrev pub sum_selected : List ℕ → Option (List ℕ) → Acc
sum_selected data_ none = sum_i64 data_
sum_selected data_ (some sel) = sum_i64_sel data_ sel

-- The aggregate of the selected rows, by the column `gc` if there is one.
abbrev pub aggregate : Block → List ℕ → Option (List ℕ) → Option ℕ → Partial
aggregate b data_ sel none = record { scalar = sum_selected data_ sel; groups = [] }
aggregate b data_ sel (some gc) = record {
  scalar = default;
  groups = group_agg (column b gc) data_ sel;
}

unfoldable pub exec_morsel : Block → Clauses → Partial
exec_morsel b q = aggregate b (column b q.agg_col) (selection b q.filter) q.group_by
