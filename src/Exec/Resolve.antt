-- ===== src/Exec/Resolve.antt =====
-- crates/blitz-exec/src/lib.rs: `resolve_table_source`, which turns a query on CTEs and queries in
-- parentheses into one on a table.
use alpheidae.Prelude.{
  ℕ, zero, suc, ◌≤◌, ◌≡◌, refl, sym, ap, subst, max, Option, none, some, ◌⊎◌, inl, inr, arith,
  Bool-cases, Option-cases, if◌then◌else◌, true, false,
}
use alpheidae.Prelude.Bytes.{Str, str_eq}
use alpheidae.Sql.{Clauses, Query, query, TableSource, table, subquery, cte, Ctes, nil, cons}

pub data Error : Type 0 where
  unknown_cte : Str → Error
  too_deep : Error

pub data Result : Type 0 where
  ok : Query → Result
  err : Error → Result

-- The outer query's clause, or else the inner one's.
abbrev pub or_inner : {A : Type 0} → Option A → Option A → Option A
or_inner none inner = inner
or_inner (some a) inner = some a

abbrev pub of_cte : Clauses → Clauses → Clauses
of_cte q inner = record {
  agg = inner.agg;
  agg_col = inner.agg_col;
  filter = or_inner q.filter inner.filter;
  group_by = or_inner q.group_by inner.group_by;
  order_by = or_inner q.order_by inner.order_by;
  limit = or_inner q.limit inner.limit;
}

abbrev pub of_subquery : Clauses → Clauses → Clauses
of_subquery q inner = record {
  agg = inner.agg;
  agg_col = inner.agg_col;
  filter = or_inner q.filter inner.filter;
  group_by = or_inner q.group_by inner.group_by;
  order_by = q.order_by;
  limit = q.limit;
}

-- The inner query with its clauses changed.
abbrev pub inside : (Clauses → Clauses) → Query → Query
inside f (query q source ctes) = query (f q) source ctes

-- The first CTE of the name.
unfoldable pub find : Ctes → Str → Option Query
find nil name = none
find (cons n q ctes) name = let rest = find ctes name in if str_eq n name then some q else rest

-- The loop, on the rounds that are left.
unfoldable pub resolve_loop : ℕ → Query → Result
resolve_loop zero q = err too_deep
resolve_loop (suc rounds) (query q (table name) ctes) = ok (query q (table name) ctes)
resolve_loop (suc rounds) (query q (cte name) ctes) = elim (find ctes name) [
  | none ↦ err (unknown_cte name)
  | some inner ↦ resolve_loop rounds (inside (of_cte q) inner)
]
resolve_loop (suc rounds) (query q (subquery inner alias) ctes) =
    resolve_loop rounds (inside (of_subquery q) inner)

unfoldable pub resolve_table_source : Query → Result
unfolding resolve_loop
resolve_table_source q = resolve_loop 32 q

-- How deep queries stand in each other.
unfoldable mutual
  pub depth : Query → ℕ
  depth (query q source ctes) = suc (max (source_depth source) (ctes_depth ctes))

  pub source_depth : TableSource → ℕ
  source_depth (table name) = 0
  source_depth (subquery q alias) = depth q
  source_depth (cte name) = 0

  pub ctes_depth : Ctes → ℕ
  ctes_depth nil = 0
  ctes_depth (cons name q ctes) = max (depth q) (ctes_depth ctes)

find-depth :
    (ctes : Ctes) (name : Str) (q : Query) → find ctes name ≡ some q → depth q ≤ ctes_depth ctes
unfolding find depth
find-depth nil name q e = absurd (ground arith)
find-depth (cons n inner ctes) name q e = elim (Bool-cases (str_eq n name)) [
  | inl this ↦ let same : inner ≡ q = ground (arith, this, e) in omega (arith, ap depth same)
  | inr other ↦ omega (arith, find-depth ctes name q (ground (arith, other, e)))
]

-- A clause that the outer query has is the clause of the other.
abbrev Keeps : {A : Type 0} → Option A → Option A → Type 0
Keeps {A} outer inner = (a : A) → outer ≡ some a → inner ≡ some a

-- The first CTE of a name, and a list that has none of the name.
pub data Names (name : Str) (q : Query) : Ctes → Type 0 where
  first : {n : Str} {ctes : Ctes} → str_eq n name ≡ true → Names name q (cons n q ctes)
  later :
      {n : Str} {p : Query} {ctes : Ctes}
      → str_eq n name ≡ false
      → Names name q ctes
      → Names name q (cons n p ctes)

abbrev pub Lacks : Str → Ctes → Type 0
Lacks name nil = Unit
Lacks name (cons n q ctes) = (str_eq n name ≡ false) × Lacks name ctes

-- The queries that a query is made of: itself, and those of the CTE that it reads or of its query in
-- parentheses.
pub data Within : Query → Query → Type 0 where
  itself : {q : Query} → Within q q
  in_cte :
      {q : Clauses} {name : Str} {ctes : Ctes} {inner r : Query}
      → Names name inner ctes
      → Within inner r
      → Within (query q (cte name) ctes) r
  in_subquery :
      {q : Clauses} {alias : Str} {ctes : Ctes} {inner r : Query}
      → Within inner r
      → Within (query q (subquery inner alias) ctes) r

-- A query on the table of the innermost query, with the aggregate of that one, and the filter, the
-- groups, the order and the limit of the outer clauses.
pub record IsResolved (outer : Clauses) (written r : Query) : Type 0 where
  pub clauses : Clauses
  pub innermost : Clauses
  pub name : Str
  pub ctes : Ctes
  pub on_table : r ≡ query clauses (table name) ctes
  pub within : Within written (query innermost (table name) ctes)
  pub agg : clauses.agg ≡ innermost.agg
  pub agg_col : clauses.agg_col ≡ innermost.agg_col
  pub filter : Keeps outer.filter clauses.filter
  pub group_by : Keeps outer.group_by clauses.group_by
  pub order_by : Keeps outer.order_by clauses.order_by
  pub limit : Keeps outer.limit clauses.limit

-- A CTE that the query which reads it does not have.
pub record IsUnknown (written : Query) (name : Str) : Type 0 where
  pub clauses : Clauses
  pub ctes : Ctes
  pub within : Within written (query clauses (cte name) ctes)
  pub missing : Lacks name ctes

abbrev pub Ends : Clauses → Query → Result → Type 0
Ends q written x =
    ((r : Query) × (x ≡ ok r) × IsResolved q written r)
    ⊎ ((name : Str) × (x ≡ err (unknown_cte name)) × IsUnknown written name)

find-Names : (ctes : Ctes) (name : Str) (q : Query) → find ctes name ≡ some q → Names name q ctes
unfolding find
find-Names nil name q e = absurd (ground arith)
find-Names (cons n inner ctes) name q e = elim (Bool-cases (str_eq n name)) [
  | inl this ↦
      let same : inner ≡ q = ground (arith, this, e) in
      subst (λ p. Names name q (cons n p ctes)) (sym same) (first this)
  | inr other ↦ later other (find-Names ctes name q (ground (arith, other, e)))
]

find-Lacks : (ctes : Ctes) (name : Str) → find ctes name ≡ none → Lacks name ctes
unfolding find
find-Lacks nil name e = tt
find-Lacks (cons n inner ctes) name e = elim (Bool-cases (str_eq n name)) [
  | inl this ↦ absurd (ground (arith, this, e))
  | inr other ↦ (other, find-Lacks ctes name (ground (arith, other, e)))
]

or_inner-Keeps :
    {A : Type 0} (outer inner r : Option A) → Keeps (or_inner outer inner) r → Keeps outer r
or_inner-Keeps none inner r h a e = absurd (ground arith)
or_inner-Keeps (some b) inner r h a e = h a e

module _ (q i : Clauses) (written inner : Query)
    (up : (r : Query) → Within inner r → Within written r) where
  cte-IsResolved : (r : Query) → IsResolved (of_cte q i) inner r → IsResolved q written r
  cte-IsResolved r h = record {
    clauses = h.clauses;
    innermost = h.innermost;
    name = h.name;
    ctes = h.ctes;
    on_table = h.on_table;
    within = up _ h.within;
    agg = h.agg;
    agg_col = h.agg_col;
    filter = or_inner-Keeps q.filter i.filter h.clauses.filter h.filter;
    group_by = or_inner-Keeps q.group_by i.group_by h.clauses.group_by h.group_by;
    order_by = or_inner-Keeps q.order_by i.order_by h.clauses.order_by h.order_by;
    limit = or_inner-Keeps q.limit i.limit h.clauses.limit h.limit;
  }

  subquery-IsResolved : (r : Query) → IsResolved (of_subquery q i) inner r → IsResolved q written r
  subquery-IsResolved r h = record {
    clauses = h.clauses;
    innermost = h.innermost;
    name = h.name;
    ctes = h.ctes;
    on_table = h.on_table;
    within = up _ h.within;
    agg = h.agg;
    agg_col = h.agg_col;
    filter = or_inner-Keeps q.filter i.filter h.clauses.filter h.filter;
    group_by = or_inner-Keeps q.group_by i.group_by h.clauses.group_by h.group_by;
    order_by = h.order_by;
    limit = h.limit;
  }

  Ends-through :
      (q' : Clauses) (x : Result)
      → ((r : Query) → IsResolved q' inner r → IsResolved q written r)
      → Ends q' inner x
      → Ends q written x
  Ends-through q' x through (inl (r, e, h)) = inl (r, e, through r h)
  Ends-through q' x through (inr (name, e, h)) = inr (
    name,
    e,
    record { clauses = h.clauses; ctes = h.ctes; within = up _ h.within; missing = h.missing },
  )

cte_missing :
    (n : ℕ) (q : Clauses) (name : Str) (ctes : Ctes)
    → find ctes name ≡ none
    → resolve_loop (suc n) (query q (cte name) ctes) ≡ err (unknown_cte name)
unfolding resolve_loop
cte_missing n q name ctes e = rw (e, resolve_loop)

cte_found :
    (n : ℕ) (q : Clauses) (name : Str) (ctes : Ctes) (inner : Query)
    → find ctes name ≡ some inner
    → resolve_loop (suc n) (query q (cte name) ctes) ≡ resolve_loop n (inside (of_cte q) inner)
unfolding resolve_loop
cte_found n q name ctes inner e = rw (e, resolve_loop)

-- The loop has the clauses `q` where the query was written with `w`, and with the same aggregate.
resolve_loop-Ends :
    (n : ℕ) (q w : Clauses) (source : TableSource) (ctes : Ctes)
    → q.agg ≡ w.agg
    → q.agg_col ≡ w.agg_col
    → depth (query q source ctes) ≤ n
    → Ends q (query w source ctes) (resolve_loop n (query q source ctes))
unfolding resolve_loop depth
resolve_loop-Ends zero q w source ctes agg col h = absurd (omega arith)
resolve_loop-Ends (suc n) q w (table name) ctes agg col h = inl (
  query q (table name) ctes,
  refl,
  record {
    clauses = q;
    innermost = w;
    name = name;
    ctes = ctes;
    on_table = refl;
    within = itself;
    agg = agg;
    agg_col = col;
    filter = λ a e. e;
    group_by = λ a e. e;
    order_by = λ a e. e;
    limit = λ a e. e;
  },
)
resolve_loop-Ends (suc n) q w (cte name) ctes agg col h =
    let written = query w (cte name) ctes in
    elim (Option-cases (find ctes name)) [
      | inl missing ↦ inr (
        name,
        cte_missing n q name ctes missing,
        record {
          clauses = w;
          ctes = ctes;
          within = itself;
          missing = find-Lacks ctes name missing;
        },
      )
      | inr (query i source within_ctes, e) ↦
          let inner = query i source within_ctes in
          let up : (r : Query) → Within inner r → Within written r =
            λ r x. in_cte (find-Names ctes name inner e) x in
          subst (Ends q written) (sym (cte_found n q name ctes inner e)) (
            Ends-through q i written inner up (of_cte q i) _ (cte-IsResolved q i written inner up) (
              resolve_loop-Ends n (of_cte q i) i source within_ctes refl refl
                (omega (arith, find-depth ctes name inner e))))
    ]
resolve_loop-Ends (suc n) q w (subquery (query i source within_ctes) alias) ctes agg col h =
    let inner = query i source within_ctes in
    let written = query w (subquery inner alias) ctes in
    let up : (r : Query) → Within inner r → Within written r = λ r x. in_subquery x in
    Ends-through q i written inner up (of_subquery q i) _ (subquery-IsResolved q i written inner up)
      (resolve_loop-Ends n (of_subquery q i) i source within_ctes refl refl (omega arith))

-- A query with at most 32 queries in each other is never found too deep. Either it is resolved to a query
-- on the table of its innermost query, which one reaches through the first CTE of the name that is read
-- and through the queries in parentheses; the result has the aggregate of that query, and the filter,
-- the groups, the order and the limit of the outermost one where that has them, and so drops those of
-- the queries within. Or one of the queries that are reached reads a CTE that it does not have, and the
-- error names it.
pub resolve_table_source_lem :
    (q : Clauses) (source : TableSource) (ctes : Ctes)
    → depth (query q source ctes) ≤ 32
    → Ends q (query q source ctes) (resolve_table_source (query q source ctes))
unfolding resolve_table_source
resolve_table_source_lem q source ctes h = resolve_loop-Ends 32 q q source ctes refl refl h
