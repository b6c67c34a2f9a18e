-- ===== src/Sql/Print.antt =====
-- A query on a table, written as the tokens of the grammar that crates/blitz-sql/src/lib.rs states at its
-- top, and parsed.
use alpheidae.Prelude.{
  ℕ, zero, suc, ◌^◌, ◌<◌, ◌≤◌, ◌≡◌, refl, Bool, true, false, Option, none, some, List, [], ◌∷◌,
  ◌++◌, length, if◌then◌else◌, arith,
}
use alpheidae.Prelude.Bytes.{Str, ascii, str_eq}
use alpheidae.Core.{CmpOp, gt, lt, ge, le, eq, IsI64}
use alpheidae.Sql.{AggFn, sum, count, min, max, avg, Clauses, Query, query, table, nil}
use alpheidae.Sql.Parse.{
  Result, ok, col, parse_with_clause, parse_agg, parse_source, parse_op, clause_loop, bare,
  parse_inner_query,
}
use alpheidae.Sql.Numbers.{decimal, decimal_i64, parse_usize-decimal, parse_i64-decimal}

abbrev pub column_token : ℕ → Str
column_token n = 67 ∷ decimal n

abbrev pub op_token : CmpOp → Str
op_token gt = ascii ">"
op_token lt = ascii "<"
op_token ge = ascii ">="
op_token le = ascii "<="
op_token eq = ascii "="

abbrev pub agg_token : AggFn → Str
agg_token sum = ascii "SUM"
agg_token count = ascii "COUNT"
agg_token min = ascii "MIN"
agg_token max = ascii "MAX"
agg_token avg = ascii "AVG"

abbrev pub where_tokens : Option (ℕ × CmpOp × ℕ) → List Str
where_tokens none = []
where_tokens (some (c, op, lit)) =
    ascii "WHERE" ∷ column_token c ∷ op_token op ∷ decimal_i64 lit ∷ []

abbrev pub group_tokens : Option ℕ → List Str
group_tokens none = []
group_tokens (some c) = ascii "GROUP" ∷ ascii "BY" ∷ column_token c ∷ []

abbrev pub order_tokens : Option (ℕ × Bool) → List Str
order_tokens none = []
order_tokens (some (c, asc)) =
    ascii "ORDER" ∷ ascii "BY" ∷ column_token c ∷ (if asc then ascii "ASC" else ascii "DESC") ∷ []

abbrev pub limit_tokens : Option ℕ → List Str
limit_tokens none = []
limit_tokens (some n) = ascii "LIMIT" ∷ decimal n ∷ []

abbrev pub clause_tokens : Clauses → List Str
clause_tokens q =
    where_tokens q.filter
    ++ (group_tokens q.group_by ++ (order_tokens q.order_by ++ limit_tokens q.limit))

abbrev pub query_tokens : Clauses → Str → List Str
query_tokens q name =
    ascii "SELECT"
    ∷ agg_token q.agg
    ∷ column_token q.agg_col
    ∷ ascii "FROM"
    ∷ name
    ∷ clause_tokens q

col-column_token : (n : ℕ) (toks : List Str) → n < 2 ^ 64 → col (column_token n ∷ toks) ≡ ok n
unfolding col
col-column_token n toks h = rw (parse_usize-decimal n h) refl

parse_op-op_token : (op : CmpOp) → parse_op (some (op_token op)) ≡ ok op
unfolding parse_op
parse_op-op_token gt = refl
parse_op-op_token lt = refl
parse_op-op_token ge = refl
parse_op-op_token le = refl
parse_op-op_token eq = refl

parse_agg-agg_token : (a : AggFn) (toks : List Str) → parse_agg (agg_token a ∷ toks) ≡ ok a
unfolding parse_agg
parse_agg-agg_token sum toks = refl
parse_agg-agg_token count toks = refl
parse_agg-agg_token min toks = refl
parse_agg-agg_token max toks = refl
parse_agg-agg_token avg toks = refl

-- Fuel for each token is enough to parse these clauses.
abbrev Parses : Clauses → List Str → Clauses → Type 0
Parses q toks r = (fuel : ℕ) → length toks ≤ fuel → clause_loop fuel q toks ≡ ok r

nothing_left : (q : Clauses) → Parses q [] q
unfolding clause_loop
nothing_left q zero h = refl
nothing_left q (suc fuel) h = refl

-- Numbers that the tokens can say.
abbrev pub IsWhere : Option (ℕ × CmpOp × ℕ) → Type 0
IsWhere none = Unit
IsWhere (some (c, op, lit)) = (c < 2 ^ 64) × IsI64 lit

abbrev pub IsUsize : Option ℕ → Type 0
IsUsize none = Unit
IsUsize (some n) = n < 2 ^ 64

abbrev pub IsOrderBy : Option (ℕ × Bool) → Type 0
IsOrderBy none = Unit
IsOrderBy (some (c, asc)) = c < 2 ^ 64

module _ (agg : AggFn) (agg_col : ℕ) where
  abbrev clauses : Option (ℕ × CmpOp × ℕ) → Option ℕ → Option (ℕ × Bool) → Option ℕ → Clauses
  clauses f g o l = record {
    agg = agg;
    agg_col = agg_col;
    filter = f;
    group_by = g;
    order_by = o;
    limit = l;
  }

  limit_parsed :
      (f : Option (ℕ × CmpOp × ℕ)) (g : Option ℕ) (o : Option (ℕ × Bool)) (l : Option ℕ)
      → IsUsize l
      → Parses (clauses f g o none) (limit_tokens l) (clauses f g o l)
  unfolding clause_loop
  limit_parsed f g o none h fuel enough = nothing_left (clauses f g o none) fuel enough
  limit_parsed f g o (some n) h zero enough = absurd (omega arith)
  limit_parsed f g o (some n) h (suc fuel) enough =
      rw (parse_usize-decimal n h) (nothing_left (clauses f g o (some n)) fuel (omega arith))

  order_parsed :
      (f : Option (ℕ × CmpOp × ℕ)) (g : Option ℕ) (o : Option (ℕ × Bool)) (rest : List Str)
      (r : Clauses)
      → IsOrderBy o
      → Parses (clauses f g o none) rest r
      → Parses (clauses f g none none) (order_tokens o ++ rest) r
  unfolding clause_loop
  order_parsed f g none rest r h k fuel enough = k fuel enough
  order_parsed f g (some (c, asc)) rest r h k zero enough = absurd (omega arith)
  order_parsed f g (some (c, true)) rest r h k (suc fuel) enough =
      rw (col-column_token c (ascii "ASC" ∷ rest) h) (k fuel (omega arith))
  order_parsed f g (some (c, false)) rest r h k (suc fuel) enough =
      rw (col-column_token c (ascii "DESC" ∷ rest) h) (k fuel (omega arith))

  group_parsed :
      (f : Option (ℕ × CmpOp × ℕ)) (g : Option ℕ) (rest : List Str) (r : Clauses)
      → IsUsize g
      → Parses (clauses f g none none) rest r
      → Parses (clauses f none none none) (group_tokens g ++ rest) r
  unfolding clause_loop
  group_parsed f none rest r h k fuel enough = k fuel enough
  group_parsed f (some c) rest r h k zero enough = absurd (omega arith)
  group_parsed f (some c) rest r h k (suc fuel) enough =
      rw (col-column_token c rest h) (k fuel (omega arith))

  where_parsed :
      (f : Option (ℕ × CmpOp × ℕ)) (rest : List Str) (r : Clauses)
      → IsWhere f
      → Parses (clauses f none none none) rest r
      → Parses (clauses none none none none) (where_tokens f ++ rest) r
  unfolding clause_loop
  where_parsed none rest r h k fuel enough = k fuel enough
  where_parsed (some (c, op, lit)) rest r h k zero enough = absurd (omega arith)
  where_parsed (some (c, op, lit)) rest r (hc, hl) k (suc fuel) enough =
      rw
        (
          col-column_token c (op_token op ∷ decimal_i64 lit ∷ rest) hc,
          parse_op-op_token op,
          parse_i64-decimal lit hl,
        )
        (k fuel (omega arith))

-- A query whose numbers fit 64 bits.
pub record IsPrintable (q : Clauses) : Type 0 where
  pub agg_col : q.agg_col < 2 ^ 64
  pub filter : IsWhere q.filter
  pub group_by : IsUsize q.group_by
  pub order_by : IsOrderBy q.order_by
  pub limit : IsUsize q.limit

clauses_parsed : (q : Clauses) → IsPrintable q → Parses (bare q.agg q.agg_col) (clause_tokens q) q
clauses_parsed q h = where_parsed q.agg q.agg_col q.filter _ q h.filter (
    group_parsed q.agg q.agg_col q.filter q.group_by _ q h.group_by (
      order_parsed q.agg q.agg_col q.filter q.group_by q.order_by _ q h.order_by
        (limit_parsed q.agg q.agg_col q.filter q.group_by q.order_by q.limit h.limit)))

source_parsed :
    (sub : List Str → Result Query) (name : Str) (toks : List Str)
    → str_eq name (ascii "(") ≡ false
    → parse_source sub nil (name ∷ toks) ≡ ok (table name, toks)
unfolding parse_source
source_parsed sub name toks h = rw h refl

-- A query on a table, written as tokens: SELECT, the aggregate and its column, FROM, the table, then
-- WHERE, GROUP BY, ORDER BY and LIMIT as far as the query has them, each number in decimal. The parser
-- returns that query, where its numbers fit 64 bits and the table is not named by a parenthesis.
pub parse_inner_query-query_tokens :
    (fuel : ℕ) (q : Clauses) (name : Str)
    → IsPrintable q
    → str_eq name (ascii "(") ≡ false
    → parse_inner_query (suc fuel) (query_tokens q name) ≡ ok (query q (table name) nil)
unfolding parse_inner_query parse_with_clause
parse_inner_query-query_tokens fuel q name h plain =
    let toks = clause_tokens q in
    rw
      (
        parse_agg-agg_token q.agg (column_token q.agg_col ∷ ascii "FROM" ∷ name ∷ toks),
        col-column_token q.agg_col (ascii "FROM" ∷ name ∷ toks) h.agg_col,
        source_parsed (parse_inner_query fuel) name toks plain,
        clauses_parsed q h (length toks) (omega arith),
      )
      refl
