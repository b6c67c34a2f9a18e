-- ===== src/Sql.antt =====
-- crates/blitz-sql/src/lib.rs: queries. A query holds the queries it is built on, so the fields that hold
-- none of them are a record of their own, `Clauses`.
pub mod Lex
pub mod Parse
pub mod Plain
pub mod Numbers
pub mod Print
pub mod Text
pub mod Written
use alpheidae.Prelude.{ℕ, Bool, Option, List, ◌==◌, if◌then◌else◌}
use alpheidae.Prelude.Bytes.{Str}
use alpheidae.Core.{CmpOp}

pub data AggFn : Type 0 where
  sum count min max avg : AggFn

unfoldable pub to_u8 : AggFn → ℕ
to_u8 sum = 0
to_u8 count = 1
to_u8 min = 2
to_u8 max = 3
to_u8 avg = 4

unfoldable pub from_u8 : ℕ → AggFn
from_u8 b =
    if b == 0
    then sum
    else if b == 1
    then count
    else if b == 2
    then min
    else if b == 3
    then max
    else avg

pub record Clauses : Type 0 where
  pub agg : AggFn
  pub agg_col : ℕ
  pub filter : Option (ℕ × CmpOp × ℕ)
  pub group_by : Option ℕ
  pub order_by : Option (ℕ × Bool)
  pub limit : Option ℕ

mutual
  pub data Query : Type 0 where
    query : Clauses → TableSource → Ctes → Query

  pub data TableSource : Type 0 where
    table : Str → TableSource
    subquery : Query → Str → TableSource
    cte : Str → TableSource

  pub data Ctes : Type 0 where
    nil : Ctes
    cons : Str → Query → Ctes → Ctes
