-- ===== src/Sql/Parse.antt =====
-- The parser of crates/blitz-sql/src/lib.rs, on the tokens that are left. The number of the token in a
-- message is left out.
use alpheidae.Prelude.{
  ℕ, zero, suc, ◌+◌, ◌-◌, ◌*◌, ◌%◌, ◌^◌, Bool, false, ◌&&◌, ◌||◌, not, Option, none, some, List, [],
  ◌∷◌, length, drop, ltb, leb, ◌==◌, if◌then◌else◌,
}
use alpheidae.Prelude.Bytes.{Str, ascii, str_eq, strip_prefix}
use alpheidae.Core.{CmpOp, gt, lt, ge, le, eq}
use alpheidae.Sql.{
  AggFn, sum, count, min, max, avg, Clauses, Query, query, TableSource, table, subquery, cte, Ctes,
  nil, cons,
}
use alpheidae.Sql.Lex.{tokens}

pub data Error : Type 0 where
  missing_cte_name expected_as expected_paren mismatched_parens missing_column missing_alias
        missing_table bad_lit bad_limit too_deep :
      Error
  expected bad_column : Str → Error
  unknown_agg bad_op : Option Str → Error

pub data Result (A : Type 0) : Type 0 where
  ok : A → Result A
  err : Error → Result A

infixl 5 ◌>>=◌ ◌>>◌
abbrev pub ◌>>=◌ : {A B : Type 0} → Result A → (A → Result B) → Result B
ok a >>= f = f a
err e >>= f = err e

abbrev pub ◌>>◌ : {B : Type 0} → Result (Unit {0}) → Result B → Result B
m >> k = m >>= λ _. k

abbrev pub ok_or : {A : Type 0} → Option A → Error → Result A
ok_or none e = err e
ok_or (some a) e = ok a

-- `toks.get(*i)`.
abbrev pub peek : List Str → Option Str
peek [] = none
peek (t ∷ toks) = some t

-- Whether the next token is this one.
abbrev pub next_is : List Str → Str → Bool
next_is [] w = false
next_is (t ∷ toks) w = str_eq t w

abbrev pub expect : List Str → Str → Result (List Str)
expect toks w = if next_is toks w then ok (drop 1 toks) else err (expected w)

-- `str::parse` of an unsigned number: a plus sign or none, then digits, and no more than fits.
abbrev pub is_digit : ℕ → Bool
is_digit c = leb 48 c && leb c 57

unfoldable pub digits : ℕ → Str → ℕ → Option ℕ
digits bound [] n = some n
digits bound (c ∷ s) n =
    let more = digits bound s (n * 10 + (c - 48)) in
    if is_digit c && ltb (n * 10 + (c - 48)) bound then more else none

abbrev pub parse_digits : ℕ → Str → Option ℕ
parse_digits bound [] = none
parse_digits bound (c ∷ s) = digits bound (c ∷ s) 0

unfoldable pub parse_usize : Str → Option ℕ
unfolding digits
parse_usize [] = none
parse_usize (c ∷ s) = if c == 43 then parse_digits (2 ^ 64) s else parse_digits (2 ^ 64) (c ∷ s)

abbrev pub negated : Option ℕ → Option ℕ
negated none = none
negated (some n) = some ((2 ^ 64 - n) % 2 ^ 64)

-- An i64 is its pattern; there is one negative number more.
unfoldable pub parse_i64 : Str → Option ℕ
unfolding digits
parse_i64 [] = none
parse_i64 (c ∷ s) =
    if c == 45
    then negated (parse_digits (2 ^ 63 + 1) s)
    else if c == 43
    then parse_digits (2 ^ 63) s
    else parse_digits (2 ^ 63) (c ∷ s)

-- A column, `cN`.
unfoldable pub col : List Str → Result ℕ
unfolding parse_usize
col [] = err missing_column
col (t ∷ toks) = elim (strip_prefix (ascii "C") t) [
  | none ↦ err (bad_column t)
  | some n ↦ ok_or (parse_usize n) (bad_column t)
]

-- The tokens up to the closing parenthesis, those from it on, and the depth that is left.
unfoldable pub parens : ℕ → List Str → List Str × List Str × ℕ
parens depth [] = ([], [], depth)
parens depth (t ∷ toks) =
    let inside =
      if str_eq t (ascii "(")
      then depth + 1
      else if str_eq t (ascii ")")
      then depth - 1
      else depth in
    let (inner, rest, left) = parens inside toks in
    if inside == 0 then ([], t ∷ toks, 0) else (t ∷ inner, rest, left)

-- `parse_with_clause`: its loop, with the parser of what is in parentheses, on fuel.
unfoldable pub with_loop : (List Str → Result Query) → ℕ → List Str → Result (Ctes × List Str)
with_loop sub zero toks = err too_deep
with_loop sub (suc fuel) toks = do
  name ← ok_or (peek toks) missing_cte_name
  after_as ← (if next_is (drop 1 toks) (ascii "AS") then ok (drop 2 toks) else err expected_as)
  inside ← (if next_is after_as (ascii "(") then ok (drop 1 after_as) else err expected_paren)
  let (inner, rest, left) = parens 1 inside
  (if left == 0 then ok tt else err mismatched_parens)
  q ← sub inner
  (if next_is (drop 1 rest) (ascii ",")
      then (do (more, behind) ← with_loop sub fuel (drop 2 rest); ok (cons name q more, behind))
      else ok (cons name q nil, drop 1 rest))

unfoldable pub parse_with_clause :
    (List Str → Result Query) → ℕ → List Str → Result (Ctes × List Str)
unfolding with_loop
parse_with_clause sub fuel toks =
    if next_is toks (ascii "WITH") then with_loop sub fuel (drop 1 toks) else ok (nil, toks)

unfoldable pub parse_agg : List Str → Result AggFn
parse_agg [] = err (unknown_agg none)
parse_agg (t ∷ toks) =
    if str_eq t (ascii "SUM")
    then ok sum
    else if str_eq t (ascii "COUNT")
    then ok count
    else if str_eq t (ascii "MIN")
    then ok min
    else if str_eq t (ascii "MAX")
    then ok max
    else if str_eq t (ascii "AVG")
    then ok avg
    else err (unknown_agg (some t))

-- `ctes.iter().any(|(n, _)| n == name)`.
abbrev pub any_cte : Ctes → Str → Bool
any_cte nil name = false
any_cte (cons n q ctes) name = str_eq n name || any_cte ctes name

-- The alias of a subquery, behind the closing parenthesis. An alias after `AS` is not passed over.
abbrev pub parse_alias : List Str → Result (Str × List Str)
parse_alias [] = ok (ascii "subq", [])
parse_alias (t ∷ []) = if str_eq t (ascii "AS") then err missing_alias else ok (t, [])
parse_alias (t ∷ a ∷ toks) = if str_eq t (ascii "AS") then ok (a, a ∷ toks) else ok (t, a ∷ toks)

unfoldable pub parse_source :
    (List Str → Result Query) → Ctes → List Str → Result (TableSource × List Str)
unfolding parens
parse_source sub ctes [] = err missing_table
parse_source sub ctes (name ∷ toks) =
    let (inner, rest, left) = parens 1 toks in
    let nested = (do
      q ← sub inner
      named ← parse_alias (drop 1 rest)
      ok (subquery q named.0, named.1)) in
    if str_eq name (ascii "(")
    then nested
    else ok (if any_cte ctes name then cte name else table name, toks)

unfoldable pub parse_op : Option Str → Result CmpOp
parse_op none = err (bad_op none)
parse_op (some t) =
    if str_eq t (ascii ">")
    then ok gt
    else if str_eq t (ascii "<")
    then ok lt
    else if str_eq t (ascii ">=")
    then ok ge
    else if str_eq t (ascii "<=")
    then ok le
    else if str_eq t (ascii "=") || str_eq t (ascii "==")
    then ok eq
    else err (bad_op (some t))

abbrev pub read_with : (Str → Option ℕ) → Error → List Str → Result ℕ
read_with read e [] = err e
read_with read e (t ∷ toks) = ok_or (read t) e

-- The loop over the clauses, on fuel. It stops at the first token that begins none, and what is left is
-- not read.
unfoldable pub clause_loop : ℕ → Clauses → List Str → Result Clauses
unfolding col parse_op parse_usize parse_i64
clause_loop zero q toks = ok q
clause_loop (suc fuel) q toks =
    let filtered = (do
      c ← col (drop 1 toks)
      op ← parse_op (peek (drop 2 toks))
      lit ← read_with parse_i64 bad_lit (drop 3 toks)
      clause_loop fuel (record q { filter = some (c, op, lit) }) (drop 4 toks)) in
    let grouped = (do
      rest ← expect (drop 1 toks) (ascii "BY")
      c ← col rest
      clause_loop fuel (record q { group_by = some c }) (drop 1 rest)) in
    let ordered = (do
      rest ← expect (drop 1 toks) (ascii "BY")
      c ← col rest
      let desc = next_is (drop 1 rest) (ascii "DESC")
      let asc = next_is (drop 1 rest) (ascii "ASC")
      clause_loop fuel (record q { order_by = some (c, not desc) })
          (if desc || asc then drop 2 rest else drop 1 rest)) in
    let limited = (do
      n ← read_with parse_usize bad_limit (drop 1 toks)
      clause_loop fuel (record q { limit = some n }) (drop 2 toks)) in
    if next_is toks (ascii "WHERE")
    then filtered
    else if next_is toks (ascii "GROUP")
    then grouped
    else if next_is toks (ascii "ORDER")
    then ordered
    else if next_is toks (ascii "LIMIT")
    then limited
    else ok q

abbrev pub bare : AggFn → ℕ → Clauses
bare agg agg_col = record {
  agg = agg;
  agg_col = agg_col;
  filter = none;
  group_by = none;
  order_by = none;
  limit = none;
}

-- The fuel bounds how deep queries stand in each other.
unfoldable pub parse_inner_query : ℕ → List Str → Result Query
unfolding parse_with_clause parse_agg parse_source clause_loop
parse_inner_query zero toks = err too_deep
parse_inner_query (suc fuel) toks = do
  let sub = parse_inner_query fuel
  with_clause ← parse_with_clause sub (length toks) toks
  let ctes = with_clause.0
  rest ← expect with_clause.1 (ascii "SELECT")
  agg ← parse_agg rest
  agg_col ← col (drop 1 rest)
  from ← expect (drop 2 rest) (ascii "FROM")
  source ← parse_source sub ctes from
  clauses ← clause_loop (length source.1) (bare agg agg_col) source.1
  ok (query clauses source.0 ctes)

-- Every query in parentheses has fewer tokens than the one around it.
unfoldable pub parse : (ℕ → Bool) → (Str → Str) → Str → Result Query
parse is_whitespace to_uppercase sql =
    let toks = tokens is_whitespace to_uppercase sql in parse_inner_query (length toks + 1) toks
